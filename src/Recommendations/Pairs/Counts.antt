-- ===== src/Recommendations/Pairs/Counts.antt =====
-- The two counting loops: how many users have a game, and how many have both of a pair.
use gechu_backend.Base.{
  ℕ, ◌+◌, ◌≡◌, ◌∙◌, refl, ◌≤◌, ◌<◌, false, ◌&&◌, ◌||◌, List, [], ◌∷◌, arith, elem, All, IsDistinct,
  ltb, ◌==◌, if◌then◌else◌,
}
use gechu_backend.Base.Dict.{Dict, Eq, nat_eq, pair_eq, get_or, get_or-insert}
use gechu_backend.Base.Sort.{sort_by, insert_by, ascending}
use gechu_backend.Recommendations.Pairs.{
  bump, count_games, pair_with, pair_games, count_users, pair_users, sorted,
}
use gechu_backend.Recommendations.Pairs.Spec.{having, having_both}

pub get_or-bump :
    {K : Type 0} ⦃e : Eq K⦄ (k j : K) (d : Dict K ℕ)
    → get_or j (bump k d) 0 ≡ get_or j d 0 + (if e.beq j k then 1 else 0)
get_or-bump ⦃e⦄ k j d = ground (arith, get_or-insert k j (get_or k d 0 + 1) 0 d, e.beq_iff j k)

-- A game that stands once in a list is counted once.
get_or-count_games :
    (g : ℕ) (gs : List ℕ) (d : Dict ℕ ℕ)
    → IsDistinct gs
    → get_or g (count_games gs d) 0 ≡ get_or g d 0 + (if elem g gs then 1 else 0)
unfolding count_games
get_or-count_games g [] d h = ground arith
get_or-count_games g (x ∷ gs) d h =
    rw (get_or-count_games g gs (bump x d) h.1) (rw (get_or-bump x g d) (ground arith))

get_or-pair_with :
    (a b g : ℕ) (ss : List ℕ) (d : Dict (ℕ × ℕ) ℕ)
    → IsDistinct ss
    → get_or (a, b) (pair_with g ss d) 0
      ≡ get_or (a, b) d 0 + (if (a == g) && elem b ss then 1 else 0)
unfolding pair_with
get_or-pair_with a b g [] d h = ground arith
get_or-pair_with a b g (s ∷ ss) d h =
    rw (get_or-pair_with a b g ss (bump (g, s) d) h.1)
      (rw (get_or-bump (g, s) (a, b) d) (ground arith))

-- In ascending order, with no number twice.
abbrev pub IsAscending : List ℕ → Type 0
IsAscending [] = Unit
IsAscending (x ∷ xs) = All (λ y. x < y) xs × IsAscending xs

pub elem_of_above : (x a : ℕ) (xs : List ℕ) → All (λ y. x < y) xs → a ≤ x → elem a xs ≡ false
elem_of_above x a [] h le = refl
elem_of_above x a (y ∷ ys) h le = ground (arith, elem_of_above x a ys h.1 le)

pub IsAscending-IsDistinct : (xs : List ℕ) → IsAscending xs → IsDistinct xs
IsAscending-IsDistinct [] h = tt
IsAscending-IsDistinct (x ∷ xs) h =
    (elem_of_above x x xs h.0 (omega arith), IsAscending-IsDistinct xs h.1)

-- For one user: the pair (a, b) is counted once if the user has both and a < b.
get_or-pair_games :
    (a b : ℕ) (gs : List ℕ) (d : Dict (ℕ × ℕ) ℕ)
    → IsAscending gs
    → get_or (a, b) (pair_games gs d) 0
      ≡ get_or (a, b) d 0 + (if ltb a b && (elem a gs && elem b gs) then 1 else 0)
unfolding pair_games
get_or-pair_games a b [] d h = ground arith
get_or-pair_games a b (g ∷ gs) d h = rw (get_or-pair_games a b gs (pair_with g gs d) h.1) (
    rw (get_or-pair_with a b g gs d (IsAscending-IsDistinct gs h.1))
      (ground (arith, elem_of_above g a gs h.0, elem_of_above g b gs h.0)))

elem-insert_by :
    (a x : ℕ) (xs : List ℕ) → elem a (insert_by (ascending (λ g. g)) x xs) ≡ (a == x || elem a xs)
elem-insert_by a x [] = refl
elem-insert_by a x (y ∷ ys) = ground (arith, elem-insert_by a x ys)

elem-sorted : (a : ℕ) (xs : List ℕ) → elem a (sorted xs) ≡ elem a xs
unfolding sorted sort_by
elem-sorted a [] = refl
elem-sorted a (x ∷ xs) =
    rw (elem-insert_by a x (sort_by (ascending (λ g. g)) xs)) (ground (arith, elem-sorted a xs))

above-insert_by :
    (z x : ℕ) (xs : List ℕ)
    → z < x
    → All (λ y. z < y) xs
    → All (λ y. z < y) (insert_by (ascending (λ g. g)) x xs)
above-insert_by z x [] h a = (h, tt)
above-insert_by z x (y ∷ ys) h a = ground (arith, above-insert_by z x ys h a.1)

above_trans : (x y : ℕ) (ys : List ℕ) → x < y → All (λ z. y < z) ys → All (λ z. x < z) ys
above_trans x y [] h a = tt
above_trans x y (z ∷ zs) h a = (omega arith, above_trans x y zs h a.1)

insert_by-IsAscending :
    (x : ℕ) (xs : List ℕ)
    → elem x xs ≡ false
    → IsAscending xs
    → IsAscending (insert_by (ascending (λ g. g)) x xs)
insert_by-IsAscending x [] n h = (tt, tt)
insert_by-IsAscending x (y ∷ ys) n h =
    ground (arith, above_trans x y ys, above-insert_by y x ys, insert_by-IsAscending x ys)

-- Sorting a set gives its members in ascending order.
pub sorted-IsAscending : (xs : List ℕ) → IsDistinct xs → IsAscending (sorted xs)
unfolding sorted sort_by
sorted-IsAscending [] d = tt
sorted-IsAscending (x ∷ xs) d =
    insert_by-IsAscending x (sort_by (ascending (λ g. g)) xs) (elem-sorted x xs ∙ d.0)
      (sorted-IsAscending xs d.1)

get_or-count_users_from :
    (g : ℕ) (games : List (List ℕ)) (d : Dict ℕ ℕ)
    → All IsDistinct games
    → get_or g (count_users games d) 0 ≡ get_or g d 0 + having g games
unfolding count_users
get_or-count_users_from g [] d h = omega arith
get_or-count_users_from g (s ∷ rest) d h =
    rw (get_or-count_users_from g rest (count_games (sorted s) d) h.1) (
      rw
        (get_or-count_games g (sorted s) d
          (IsAscending-IsDistinct (sorted s) (sorted-IsAscending s h.0)))
        (rw (elem-sorted g s) (omega arith)))

-- `game_user_count[g]` is the number of users that have the game.
pub get_or-count_users :
    (g : ℕ) (games : List (List ℕ))
    → All IsDistinct games
    → get_or g (count_users games []) 0 ≡ having g games
get_or-count_users g games h = get_or-count_users_from g games [] h ∙ omega arith

get_or-pair_users_from :
    (a b : ℕ) (games : List (List ℕ)) (d : Dict (ℕ × ℕ) ℕ)
    → All IsDistinct games
    → get_or (a, b) (pair_users games d) 0
      ≡ get_or (a, b) d 0 + (if ltb a b then having_both a b games else 0)
unfolding pair_users
get_or-pair_users_from a b [] d h = ground arith
get_or-pair_users_from a b (s ∷ rest) d h =
    rw (get_or-pair_users_from a b rest (pair_games (sorted s) d) h.1) (
      rw (get_or-pair_games a b (sorted s) d (sorted-IsAscending s h.0))
        (rw (elem-sorted a s, elem-sorted b s) (ground arith)))

-- `co_occurrence[(a, b)]` is the number of users that have both, kept under a < b alone.
pub get_or-pair_users :
    (a b : ℕ) (games : List (List ℕ))
    → All IsDistinct games
    → get_or (a, b) (pair_users games []) 0 ≡ (if ltb a b then having_both a b games else 0)
get_or-pair_users a b games h = get_or-pair_users_from a b games [] h ∙ ground arith
