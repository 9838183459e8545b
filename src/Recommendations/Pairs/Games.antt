-- ===== src/Recommendations/Pairs/Games.antt =====
-- What the log collects into: one set of games for each user, with no game twice.
use gechu_backend.Base.{
  ℕ, ◌≡◌, refl, false, ◌&&◌, ◌||◌, Option, none, some, List, [], ◌∷◌, ◌++◌, arith, elem, All,
  elem-append, IsDistinct, filter, ◌∙◌, ◌==◌, Bool-cases, Option-cases, inl, inr,
}
use gechu_backend.Base.Dict.{Dict, nat_eq, insert, get_or, get_or-insert}
use gechu_backend.Models.Interaction.{InteractionLog}
use gechu_backend.Recommendations.Pairs.{set_add, add_row, collect, values, names_game}
use gechu_backend.Recommendations.Pairs.Spec.{is_game, has_game}

elem-set_add : (a g : ℕ) (games : List ℕ) → elem a (set_add g games) ≡ (a == g || elem a games)
elem-set_add a g games = ground (arith, elem-append a games (g ∷ []))

IsDistinct-snoc :
    (g : ℕ) (games : List ℕ)
    → IsDistinct games
    → elem g games ≡ false
    → IsDistinct (games ++ g ∷ [])
IsDistinct-snoc g [] d h = (refl, tt)
IsDistinct-snoc g (x ∷ xs) d h = ground (arith, elem-append x xs (g ∷ []), IsDistinct-snoc g xs d.1)

set_add-IsDistinct : (g : ℕ) (games : List ℕ) → IsDistinct games → IsDistinct (set_add g games)
set_add-IsDistinct g games d = ground (arith, IsDistinct-snoc g games d)

elem-add_row :
    (u g v : ℕ) (o : Option ℕ) (d : Dict ℕ (List ℕ))
    → elem g (get_or u (add_row d v o) []) ≡ (((u == v) && is_game g o) || elem g (get_or u d []))
elem-add_row u g v none d = ground arith
elem-add_row u g v (some h) d =
    rw (get_or-insert v u (set_add h (get_or v d [])) [] d) (elim (Bool-cases (u == v)) [
      | inl e ↦
          let same : u ≡ v = ground arith in
          rw e (rw same (rw (elem-set_add g h (get_or v d [])) refl))
      | inr e ↦ rw e refl
    ])

elem-collect_from :
    (u g : ℕ) (logs : List InteractionLog) (d : Dict ℕ (List ℕ))
    → elem g (get_or u (collect logs d) []) ≡ (has_game u g logs || elem g (get_or u d []))
unfolding collect has_game
elem-collect_from u g [] d = refl
elem-collect_from u g (l ∷ logs) d =
    rw (elem-collect_from u g logs (add_row d l.user_id l.igdb_game_id))
      (rw (elem-add_row u g l.user_id l.igdb_game_id d) (ground arith))

-- A game stands in a user's set exactly if some row of the log has the user and the game.
pub elem-collect :
    (u g : ℕ) (logs : List InteractionLog)
    → elem g (get_or u (collect logs []) []) ≡ has_game u g logs
elem-collect u g logs = rw (elem-collect_from u g logs []) (ground arith)

-- Each user has one set, and no set names a game twice.
abbrev pub SetsAreDistinct : Dict ℕ (List ℕ) → Type 0
SetsAreDistinct [] = Unit
SetsAreDistinct ((k, s) ∷ d) = IsDistinct s × SetsAreDistinct d

get_or-IsDistinct : (u : ℕ) (d : Dict ℕ (List ℕ)) → SetsAreDistinct d → IsDistinct (get_or u d [])
get_or-IsDistinct u [] h = tt
get_or-IsDistinct u ((k, s) ∷ d) h = elim (Bool-cases (u == k)) [
  | inl e ↦ rw e h.0
  | inr e ↦ rw e (get_or-IsDistinct u d h.1)
]

insert-SetsAreDistinct :
    (u : ℕ) (s : List ℕ) (d : Dict ℕ (List ℕ))
    → IsDistinct s
    → SetsAreDistinct d
    → SetsAreDistinct (insert u s d)
insert-SetsAreDistinct u s [] hs h = (hs, tt)
insert-SetsAreDistinct u s ((k, t) ∷ d) hs h = elim (Bool-cases (u == k)) [
  | inl e ↦ rw e (hs, h.1)
  | inr e ↦ rw e (h.0, insert-SetsAreDistinct u s d hs h.1)
]

add_row-SetsAreDistinct :
    (v : ℕ) (o : Option ℕ) (d : Dict ℕ (List ℕ))
    → SetsAreDistinct d
    → SetsAreDistinct (add_row d v o)
add_row-SetsAreDistinct v none d h = h
add_row-SetsAreDistinct v (some g) d h =
    insert-SetsAreDistinct v (set_add g (get_or v d [])) d
      (set_add-IsDistinct g (get_or v d []) (get_or-IsDistinct v d h)) h

collect-SetsAreDistinct :
    (logs : List InteractionLog) (d : Dict ℕ (List ℕ))
    → SetsAreDistinct d
    → SetsAreDistinct (collect logs d)
unfolding collect
collect-SetsAreDistinct [] d h = h
collect-SetsAreDistinct (l ∷ logs) d h =
    collect-SetsAreDistinct logs (add_row d l.user_id l.igdb_game_id)
      (add_row-SetsAreDistinct l.user_id l.igdb_game_id d h)

values-IsDistinct : (d : Dict ℕ (List ℕ)) → SetsAreDistinct d → All IsDistinct (values d)
values-IsDistinct [] h = tt
values-IsDistinct ((k, s) ∷ d) h = (h.0, values-IsDistinct d h.1)

pub collect-IsDistinct : (logs : List InteractionLog) → All IsDistinct (values (collect logs []))
collect-IsDistinct logs = values-IsDistinct (collect logs []) (collect-SetsAreDistinct logs [] tt)

-- Leaving out the rows with no game changes no user's games.
has_game-filter :
    (u g : ℕ) (logs : List InteractionLog)
    → has_game u g (filter names_game logs) ≡ has_game u g logs
unfolding has_game
has_game-filter u g [] = refl
has_game-filter u g (l ∷ logs) = elim (Option-cases l.igdb_game_id) [
  | inl e ↦ rw e (rw (has_game-filter u g logs) (ground arith))
  | inr (h, e) ↦ rw e (rw (has_game-filter u g logs) refl)
]

-- The sets of games that the task works on: one for each user with a game in the log.
abbrev pub games_by_user : List InteractionLog → Dict ℕ (List ℕ)
games_by_user logs = collect (filter names_game logs) []

-- A game stands in a user's set exactly if the log has a row of that user with that game.
pub elem-games_by_user :
    (user g : ℕ) (logs : List InteractionLog)
    → elem g (get_or user (games_by_user logs) []) ≡ has_game user g logs
elem-games_by_user user g logs =
    elem-collect user g (filter names_game logs) ∙ has_game-filter user g logs
