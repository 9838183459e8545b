-- ===== src/Recommendations/Pairs/Users.antt =====
-- The sets that the task collects count the users of the log.
use gechu_backend.Base.{
  ℕ, ◌+◌, ◌≡◌, refl, sym, ap, ◌∙◌, Bool, false, ◌&&◌, Option, none, some, List, [], ◌∷◌, ◌++◌, elem,
  filter, All, arith, ◌==◌, if◌then◌else◌, Option-cases, inl, inr,
}
use gechu_backend.Base.Dict.{Dict, nat_eq, lookup, insert, get_or, IsDict, insert-IsDict}
use gechu_backend.Models.Interaction.{InteractionLog}
use gechu_backend.Recommendations.Pairs.{FloatScore, set_add, add_row, collect, values, names_game}
use gechu_backend.Recommendations.Pairs.Spec.{
  has_game, having, having_both, add_user, users_from, users_of, number_of, users_with,
  users_with_both, pair_score, set_score,
}
use gechu_backend.Recommendations.Pairs.Games.{games_by_user, elem-games_by_user}

abbrev keys : Dict ℕ (List ℕ) → List ℕ
keys [] = []
keys ((k, s) ∷ d) = k ∷ keys d

keys-insert :
    (u : ℕ) (s : List ℕ) (d : Dict ℕ (List ℕ))
    → keys (insert u s d) ≡ (if elem u (keys d) then keys d else keys d ++ u ∷ [])
keys-insert u s [] = refl
keys-insert u s ((k, t) ∷ d) = ground (arith, keys-insert u s d)

keys-add_row :
    (u : ℕ) (o : Option ℕ) (d : Dict ℕ (List ℕ)) → keys (add_row d u o) ≡ add_user u o (keys d)
keys-add_row u none d = refl
keys-add_row u (some g) d = keys-insert u (set_add g (get_or u d [])) d

keys-collect :
    (logs : List InteractionLog) (d : Dict ℕ (List ℕ))
    → keys (collect logs d) ≡ users_from logs (keys d)
unfolding collect users_from
keys-collect [] d = refl
keys-collect (l ∷ logs) d =
    keys-collect logs (add_row d l.user_id l.igdb_game_id)
    ∙ ap (users_from logs) (keys-add_row l.user_id l.igdb_game_id d)

-- The rows with no game name no user.
users_from-filter :
    (logs : List InteractionLog) (users : List ℕ)
    → users_from (filter names_game logs) users ≡ users_from logs users
unfolding users_from
users_from-filter [] users = refl
users_from-filter (l ∷ logs) users = elim (Option-cases l.igdb_game_id) [
  | inl e ↦ rw e (users_from-filter logs users)
  | inr (g, e) ↦ rw e (users_from-filter logs (add_user l.user_id (some g) users))
]

keys-games_by_user : (logs : List InteractionLog) → keys (games_by_user logs) ≡ users_of logs
keys-games_by_user logs = keys-collect (filter names_game logs) [] ∙ users_from-filter logs []

collect-IsDict :
    (logs : List InteractionLog) (d : Dict ℕ (List ℕ)) → IsDict d → IsDict (collect logs d)
unfolding collect
collect-IsDict [] d h = h
collect-IsDict (l ∷ logs) d h = elim (Option-cases l.igdb_game_id) [
  | inl e ↦ rw e (collect-IsDict logs d h)
  | inr (g, e) ↦
      let games = set_add g (get_or l.user_id d []) in
      rw e (collect-IsDict logs (insert l.user_id games d) (insert-IsDict l.user_id games d h))
]

number_of_congr :
    (p q : ℕ → Bool) (users : List ℕ)
    → ((u : ℕ) → p u ≡ q u)
    → number_of p users ≡ number_of q users
number_of_congr p q [] h = refl
number_of_congr p q (u ∷ users) h = rw (h u, number_of_congr p q users h) refl

-- How many of the sets pass a test, counted by their users
abbrev tally : (List ℕ → Bool) → List (List ℕ) → ℕ
tally f [] = 0
tally f (s ∷ sets) = (if f s then 1 else 0) + tally f sets

number_of_cons :
    (x y : Bool) {m n : ℕ} → x ≡ y → m ≡ n → (if x then 1 else 0) + m ≡ (if y then 1 else 0) + n
number_of_cons x y h k = rw (h, k) refl

keys_differ :
    (k : ℕ) (d : Dict ℕ (List ℕ)) → lookup k d ≡ none → All (λ u. (u == k) ≡ false) (keys d)
keys_differ k [] h = tt
keys_differ k ((j, s) ∷ d) h = ground (arith, keys_differ k d)

get_or_other :
    (u k : ℕ) (s : List ℕ) (d : Dict ℕ (List ℕ))
    → (u == k) ≡ false
    → get_or u ((k, s) ∷ d) [] ≡ get_or u d []
get_or_other u k s d h = ground arith

get_or_own : (k : ℕ) (s : List ℕ) (d : Dict ℕ (List ℕ)) → get_or k ((k, s) ∷ d) [] ≡ s
get_or_own k s d = ground arith

number_of_others :
    (f : List ℕ → Bool) (k : ℕ) (s : List ℕ) (d : Dict ℕ (List ℕ)) (users : List ℕ)
    → All (λ u. (u == k) ≡ false) users
    → number_of (λ u. f (get_or u ((k, s) ∷ d) [])) users ≡ number_of (λ u. f (get_or u d [])) users
number_of_others f k s d [] h = refl
number_of_others f k s d (u ∷ users) h =
    number_of_cons (f (get_or u ((k, s) ∷ d) [])) (f (get_or u d []))
      (ap f (get_or_other u k s d h.0)) (number_of_others f k s d users h.1)

tally-values :
    (f : List ℕ → Bool) (d : Dict ℕ (List ℕ))
    → IsDict d
    → tally f (values d) ≡ number_of (λ u. f (get_or u d [])) (keys d)
tally-values f [] h = refl
tally-values f ((k, s) ∷ d) h =
    number_of_cons (f s) (f (get_or k ((k, s) ∷ d) [])) (sym (ap f (get_or_own k s d)))
      (tally-values f d h.1 ∙ sym (number_of_others f k s d (keys d) (keys_differ k d h.0)))

having-tally : (a : ℕ) (sets : List (List ℕ)) → having a sets ≡ tally (λ s. elem a s) sets
having-tally a [] = refl
having-tally a (s ∷ sets) = ap (λ n. (if elem a s then 1 else 0) + n) (having-tally a sets)

having_both-tally :
    (a b : ℕ) (sets : List (List ℕ)) → having_both a b sets ≡ tally (λ s. elem a s && elem b s) sets
having_both-tally a b [] = refl
having_both-tally a b (s ∷ sets) =
    ap (λ n. (if elem a s && elem b s then 1 else 0) + n) (having_both-tally a b sets)

module _ (logs : List InteractionLog) where
  tally-users :
      (f : List ℕ → Bool) (p : ℕ → Bool)
      → ((u : ℕ) → f (get_or u (games_by_user logs) []) ≡ p u)
      → tally f (values (games_by_user logs)) ≡ number_of p (users_of logs)
  tally-users f p h =
      tally-values f (games_by_user logs) (collect-IsDict (filter names_game logs) [] tt)
      ∙ number_of_congr (λ u. f (get_or u (games_by_user logs) [])) p (keys (games_by_user logs)) h
      ∙ ap (number_of p) (keys-games_by_user logs)

  pub having-users : (a : ℕ) → having a (values (games_by_user logs)) ≡ users_with a logs
  having-users a =
      having-tally a (values (games_by_user logs))
      ∙ tally-users (λ s. elem a s) (λ u. has_game u a logs) (λ u. elem-games_by_user u a logs)

  pub having_both-users :
      (a b : ℕ) → having_both a b (values (games_by_user logs)) ≡ users_with_both a b logs
  having_both-users a b =
      having_both-tally a b (values (games_by_user logs))
      ∙ tally-users (λ s. elem a s && elem b s) (λ u. has_game u a logs && has_game u b logs)
          (λ u. rw (elem-games_by_user u a logs, elem-games_by_user u b logs) refl)

  pub set_score-pair_score :
      (float : FloatScore) (a b : ℕ)
      → set_score float (values (games_by_user logs)) a b ≡ pair_score float logs a b
  set_score-pair_score float a b = rw (having_both-users a b, having-users a, having-users b) refl
