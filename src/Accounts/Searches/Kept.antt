-- ===== src/Accounts/Searches/Kept.antt =====
-- The list of recent searches holds no text twice and stays within its size.
use gechu_backend.Base.{
  ℕ, zero, suc, ◌≡◌, refl, ◌≤◌, ◌<◌, true, false, String, string_eq, List, [], ◌∷◌, take, length,
  length-take-le, first, some, arith, Bool-cases, inl, inr,
}
use gechu_backend.Models.User.{User as UserRow}
use gechu_backend.Accounts.{is_deactivated}
use gechu_backend.Accounts.Searches.{
  lrem, holds, up_to, save_recent_search_keyword, clear_recent_searches,
  delete_recent_search_keyword,
}

-- No text stands twice.
abbrev pub IsUnrepeated : List String → Type 0
IsUnrepeated [] = Unit
IsUnrepeated (w ∷ words) = (holds w words ≡ false) × IsUnrepeated words

abbrev pub IsKept : ℕ → List String → Type 0
IsKept max_size words = (0 < max_size → length words ≤ max_size) × IsUnrepeated words

lrem-holds : (keyword : String) (words : List String) → holds keyword (lrem keyword words) ≡ false
unfolding lrem
lrem-holds keyword [] = refl
lrem-holds keyword (w ∷ words) = ground (arith, lrem-holds keyword words)

lrem_keeps :
    (keyword w : String) (words : List String)
    → holds w words ≡ false
    → holds w (lrem keyword words) ≡ false
unfolding lrem
lrem_keeps keyword w [] h = refl
lrem_keeps keyword w (v ∷ words) h = ground (arith, lrem_keeps keyword w words)

lrem-IsUnrepeated :
    (keyword : String) (words : List String)
    → IsUnrepeated words
    → IsUnrepeated (lrem keyword words)
unfolding lrem
lrem-IsUnrepeated keyword [] h = tt
lrem-IsUnrepeated keyword (w ∷ words) h = elim (Bool-cases (string_eq keyword w)) [
  | inl e ↦ rw e (lrem-IsUnrepeated keyword words h.1)
  | inr e ↦ rw e (lrem_keeps keyword w words h.0, lrem-IsUnrepeated keyword words h.1)
]

length-lrem : (keyword : String) (words : List String) → length (lrem keyword words) ≤ length words
unfolding lrem
length-lrem keyword [] = omega arith
length-lrem keyword (w ∷ words) = ground (arith, length-lrem keyword words)

take-holds :
    (n : ℕ) (w : String) (words : List String)
    → holds w words ≡ false
    → holds w (take n words) ≡ false
take-holds zero w words h = refl
take-holds (suc n) w [] h = refl
take-holds (suc n) w (v ∷ words) h = ground (arith, take-holds n w words)

take-IsUnrepeated : (n : ℕ) (words : List String) → IsUnrepeated words → IsUnrepeated (take n words)
take-IsUnrepeated zero words h = tt
take-IsUnrepeated (suc n) [] h = tt
take-IsUnrepeated (suc n) (w ∷ words) h = (take-holds n w words h.0, take-IsUnrepeated n words h.1)

up_to-IsKept : (n : ℕ) (words : List String) → IsUnrepeated words → IsKept n (up_to n words)
up_to-IsKept zero words h = (λ some_room. absurd (omega arith), h)
up_to-IsKept (suc n) words h =
    (λ some_room. length-take-le (suc n) words, take-IsUnrepeated (suc n) words h)

-- Saving, deleting and clearing keep the list within its size, where that is at least 1, and free of
-- repetitions, for a user who is active and for one who is not. For an active user, a text that is
-- saved is then the first, and a text that is deleted is no longer in the list.
pub recent_searches-IsKept :
    (max_size : ℕ) (u : UserRow) (keyword : String) (words : List String)
    → IsKept max_size words
    → IsKept max_size (save_recent_search_keyword max_size u keyword words).1
      × IsKept max_size (delete_recent_search_keyword u keyword words).1
      × IsKept max_size (clear_recent_searches u words).1
      × (is_deactivated u ≡ false
          → first (save_recent_search_keyword max_size u keyword words).1 ≡ some keyword)
      × (is_deactivated u ≡ false
          → holds keyword (delete_recent_search_keyword u keyword words).1 ≡ false)
unfolding save_recent_search_keyword delete_recent_search_keyword clear_recent_searches
recent_searches-IsKept max_size u keyword words (short, apart) =
    let removed = lrem-IsUnrepeated keyword words apart in
    let fewer = length-lrem keyword words in
    let gone = lrem-holds keyword words in
    let saved = keyword ∷ lrem keyword words in
    elim (Bool-cases (is_deactivated u)) [
      | inl e ↦ rw e (
        (short, apart),
        (short, apart),
        (short, apart),
        λ active. absurd (clash active),
        λ active. absurd (clash active),
      )
      | inr e ↦ elim (Bool-cases (holds keyword words)) [
        | inl there ↦
            rw (e, there)
              (
                up_to-IsKept max_size saved (gone, removed),
                (λ some_room. let bound = short some_room in omega arith, removed),
                (λ some_room. omega arith, tt),
                λ active. first-up_to max_size saved,
                λ active. gone,
              )
        | inr missing ↦
            rw (e, missing)
              (
                up_to-IsKept max_size saved (gone, removed),
                (λ some_room. let bound = short some_room in omega arith, removed),
                (λ some_room. omega arith, tt),
                λ active. first-up_to max_size saved,
                λ active. gone,
              )
      ]
    ]
  where
    clash : true ≡ false → ⊥
    clash e = cc

    first-up_to : (n : ℕ) (xs : List String) → first (up_to n xs) ≡ first xs
    first-up_to zero xs = refl
    first-up_to (suc n) [] = refl
    first-up_to (suc n) (x ∷ xs) = refl
