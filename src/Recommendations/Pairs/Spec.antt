-- ===== src/Recommendations/Pairs/Spec.antt =====
-- What the pair scores should be, told from the log alone: how many users have a game, or two.
use gechu_backend.Base.{
  ℕ, ◌+◌, ◌*◌, ◌≤◌, ◌≡◌, refl, arith, Bool, false, ◌&&◌, Option, none, some, List, [], ◌∷◌, ◌++◌,
  elem, ◌==◌, ◌||◌, if◌then◌else◌,
}
use gechu_backend.Models.Interaction.{InteractionLog}
use gechu_backend.Recommendations.Pairs.{FloatScore}

abbrev pub is_game : ℕ → Option ℕ → Bool
is_game g none = false
is_game g (some h) = g == h

-- Does the user have the game in the log?
unfoldable pub has_game : ℕ → ℕ → List InteractionLog → Bool
has_game user g [] = false
has_game user g (l ∷ logs) = (user == l.user_id && is_game g l.igdb_game_id) || has_game user g logs

-- In how many of the sets the game stands, and in how many both do.
abbrev pub having : ℕ → List (List ℕ) → ℕ
having g [] = 0
having g (games ∷ rest) = (if elem g games then 1 else 0) + having g rest

abbrev pub having_both : ℕ → ℕ → List (List ℕ) → ℕ
having_both a b [] = 0
having_both a b (games ∷ rest) =
    (if elem a games && elem b games then 1 else 0) + having_both a b rest

-- The users that have a game in the log, each once
abbrev pub add_user : ℕ → Option ℕ → List ℕ → List ℕ
add_user user none users = users
add_user user (some g) users = if elem user users then users else users ++ user ∷ []

unfoldable pub users_from : List InteractionLog → List ℕ → List ℕ
users_from [] users = users
users_from (l ∷ logs) users = users_from logs (add_user l.user_id l.igdb_game_id users)

abbrev pub users_of : List InteractionLog → List ℕ
users_of logs = users_from logs []

abbrev pub number_of : (ℕ → Bool) → List ℕ → ℕ
number_of p [] = 0
number_of p (u ∷ users) = (if p u then 1 else 0) + number_of p users

-- How many users have a game in the log, and how many have both of two
abbrev pub users_with : ℕ → List InteractionLog → ℕ
users_with g logs = number_of (λ u. has_game u g logs) (users_of logs)

abbrev pub users_with_both : ℕ → ℕ → List InteractionLog → ℕ
users_with_both a b logs = number_of (λ u. has_game u a logs && has_game u b logs) (users_of logs)

-- The score of a pair, from the log: none for a game with itself or with no user in common, or if it
-- rounds to 0.
module _ (float : FloatScore) where
  abbrev pub pair_score : List InteractionLog → ℕ → ℕ → Option ℕ
  pair_score logs a b =
      let overlap = users_with_both a b logs in
      let score = float.quantized overlap (users_with a logs * users_with b logs) in
      if a == b || overlap == 0 || score == 0 then none else some score

-- The same, from the sets of games: none for a game with itself or with no user in common, or if it rounds to 0.
module _ (float : FloatScore) where
  abbrev pub set_score : List (List ℕ) → ℕ → ℕ → Option ℕ
  set_score games a b =
      let overlap = having_both a b games in
      let score = float.quantized overlap (having a games * having b games) in
      if a == b || overlap == 0 || score == 0 then none else some score

pub having_both-le :
    (a b : ℕ) (games : List (List ℕ))
    → (having_both a b games ≤ having a games) × (having_both a b games ≤ having b games)
having_both-le a b [] = omega arith
having_both-le a b (s ∷ rest) = let ih = having_both-le a b rest in (ground arith, ground arith)

pub having_both_comm :
    (a b : ℕ) (games : List (List ℕ)) → having_both a b games ≡ having_both b a games
having_both_comm a b [] = refl
having_both_comm a b (s ∷ rest) = ground (arith, having_both_comm a b rest)
