-- ===== src/Games/Autocomplete/Results.antt =====
-- The results of the autocompletion: _search of apps/games/views/autocomplete.py.
use gechu_backend.Base.{
  ℕ, zero, suc, ◌≡◌, ◌≤◌, refl, sym, subst, true, false, Option, none, some, String, List, [], ◌∷◌,
  map, length, arith, ◌⊎◌, inl, inr, All, Elem, Bool-cases,
}
use gechu_backend.Base.Sort.{sort_by, descending, Elem-sort_by_intro}
use gechu_backend.Core.Errors.{ok}
use gechu_backend.Games.Autocomplete.{
  Redis, max_results, max_scan_iterations, Match, Suggestion, ids_eq, has_id,
}
use gechu_backend.Games.Autocomplete.Names.{scan_names}
use gechu_backend.Games.Autocomplete.Entries.{Added, enrich_with_igdb_cache}
use gechu_backend.Games.Autocomplete.View.{suggestion, results_of, search}

abbrev pub ids_of : List Suggestion → List (Option ℕ)
ids_of results = map (λ r. r.id) results

-- No id is there twice.
abbrev pub AreOnce : List Suggestion → Type 0
AreOnce [] = Unit
AreOnce (r ∷ results) = (has_id r.id (ids_of results) ≡ false) × AreOnce results

-- A match is shown, or there is no room for it.
abbrev pub IsShown : ℕ → List Suggestion → Match → Type 0
IsShown room results m = (has_id m.id (ids_of results) ≡ true) ⊎ (length results ≡ room)

ids_eq_sym : (a b : Option ℕ) → ids_eq a b ≡ ids_eq b a
ids_eq_sym none none = refl
ids_eq_sym none (some b) = refl
ids_eq_sym (some a) none = refl
ids_eq_sym (some a) (some b) = ground arith

-- What comes after an id is seen has another id.
has_id-after :
    (id : Option ℕ) (seen_ids : List (Option ℕ)) (results : List Suggestion)
    → All (λ r. has_id r.id (id ∷ seen_ids) ≡ false) results
    → has_id id (ids_of results) ≡ false
has_id-after id seen_ids [] h = refl
has_id-after id seen_ids (r ∷ results) h =
    ground (arith, ids_eq_sym id r.id, h.0, has_id-after id seen_ids results h.1)

-- What is new after an id is seen was new before.
new-after :
    (id : Option ℕ) (seen_ids : List (Option ℕ)) (results : List Suggestion)
    → All (λ r. has_id r.id (id ∷ seen_ids) ≡ false) results
    → All (λ r. has_id r.id seen_ids ≡ false) results
new-after id seen_ids [] h = tt
new-after id seen_ids (r ∷ results) h = (ground (arith, h.0), new-after id seen_ids results h.1)

results_of_seen :
    (room : ℕ) (seen_ids : List (Option ℕ)) (m : Match) (ms : List Match)
    → has_id m.id seen_ids ≡ true
    → results_of (suc room) seen_ids (m ∷ ms) ≡ results_of (suc room) seen_ids ms
unfolding results_of
results_of_seen room seen_ids m ms seen =
    subst
      (λ b.
        elim b [
          | true ↦ results_of (suc room) seen_ids ms
          | false ↦ suggestion m ∷ results_of room (m.id ∷ seen_ids) ms
        ]
        ≡ results_of (suc room) seen_ids ms)
      (sym seen) refl

results_of_new :
    (room : ℕ) (seen_ids : List (Option ℕ)) (m : Match) (ms : List Match)
    → has_id m.id seen_ids ≡ false
    → results_of (suc room) seen_ids (m ∷ ms) ≡ suggestion m ∷ results_of room (m.id ∷ seen_ids) ms
unfolding results_of
results_of_new room seen_ids m ms new =
    subst
      (λ b.
        elim b [
          | true ↦ results_of (suc room) seen_ids ms
          | false ↦ suggestion m ∷ results_of room (m.id ∷ seen_ids) ms
        ]
        ≡ suggestion m ∷ results_of room (m.id ∷ seen_ids) ms)
      (sym new) refl

-- So many at most, with new ids, each of them once
abbrev AreNew : ℕ → List (Option ℕ) → List Suggestion → Type 0
AreNew room seen_ids results =
    (length results ≤ room) × All (λ r. has_id r.id seen_ids ≡ false) results × AreOnce results

results_of-AreNew :
    (room : ℕ) (seen_ids : List (Option ℕ)) (ms : List Match)
    → AreNew room seen_ids (results_of room seen_ids ms)
unfolding results_of
results_of-AreNew zero seen_ids ms = (omega arith, tt, tt)
results_of-AreNew (suc room) seen_ids [] = (omega arith, tt, tt)
results_of-AreNew (suc room) seen_ids (m ∷ ms) = elim (Bool-cases (has_id m.id seen_ids)) [
  | inl seen ↦
      subst (λ l. AreNew (suc room) seen_ids l) (sym (results_of_seen room seen_ids m ms seen))
        (results_of-AreNew (suc room) seen_ids ms)
  | inr new ↦
      let (bound, others, once) = results_of-AreNew room (m.id ∷ seen_ids) ms in
      let results = results_of room (m.id ∷ seen_ids) ms in
      subst (λ l. AreNew (suc room) seen_ids l) (sym (results_of_new room seen_ids m ms new))
        (
          omega (arith, bound),
          (new, new-after m.id seen_ids results others),
          (has_id-after m.id seen_ids results others, once),
        )
]

-- A match is shown, unless its id was seen before.
abbrev IsDone : ℕ → List (Option ℕ) → Match → List Suggestion → Type 0
IsDone room seen_ids m results = (has_id m.id seen_ids ≡ true) ⊎ IsShown room results m

ids_eq_refl : (a : Option ℕ) → ids_eq a a ≡ true
ids_eq_refl none = refl
ids_eq_refl (some a) = ground arith

cons-IsDone :
    (room : ℕ) (seen_ids : List (Option ℕ)) (x m : Match) (results : List Suggestion)
    → IsDone room (x.id ∷ seen_ids) m results
    → IsDone (suc room) seen_ids m (suggestion x ∷ results)
cons-IsDone room seen_ids x m results (inr (inl shown)) = inr (inl (ground (arith, shown)))
cons-IsDone room seen_ids x m results (inr (inr full_up)) = inr (inr (ground (arith, full_up)))
cons-IsDone room seen_ids x m results (inl h) = elim (Bool-cases (ids_eq m.id x.id)) [
  | inl same ↦ inr (inl (ground (arith, same)))
  | inr differs ↦ inl (ground (arith, differs, h))
]

results_of-IsDone :
    (room : ℕ) (seen_ids : List (Option ℕ)) (ms : List Match) (m : Match)
    → Elem m ms
    → IsDone room seen_ids m (results_of room seen_ids ms)
unfolding results_of
results_of-IsDone zero seen_ids ms m e = inr (inr refl)
results_of-IsDone (suc room) seen_ids [] m e = absurd e
results_of-IsDone (suc room) seen_ids (x ∷ ms) m e = elim (Bool-cases (has_id x.id seen_ids)) [
  | inl seen ↦
      subst (λ l. IsDone (suc room) seen_ids m l) (sym (results_of_seen room seen_ids x ms seen))
        (elim e [
          | inl here ↦ inl (rw here seen)
          | inr later ↦ results_of-IsDone (suc room) seen_ids ms m later
        ])
  | inr new ↦
      subst (λ l. IsDone (suc room) seen_ids m l) (sym (results_of_new room seen_ids x ms new))
        (elim e [
          | inl here ↦ inr (inl (rw (here, ids_eq_refl x.id) refl))
          | inr later ↦
              cons-IsDone room seen_ids x m (results_of room (x.id ∷ seen_ids) ms)
                (results_of-IsDone room (x.id ∷ seen_ids) ms m later)
        ])
]

-- When the scans of the names and of the games end without an error, the completion of a text gives
-- at most ten games, none twice, and the game of every match that the scans gathered is among them
-- unless there are ten.
pub search-IsShown :
    (lower : String → String) (r : Redis) (query : String) (matches : List Match) (a : Added)
    → scan_names lower r query max_scan_iterations 0 [] ≡ ok matches
    → enrich_with_igdb_cache lower r (lower query) matches ≡ ok a
    → (results : List Suggestion) × (search lower r query ≡ ok results)
      × (length results ≤ max_results)
      × AreOnce results
      × ((m : Match) → Elem m a.matches → IsShown max_results results m)
unfolding search
search-IsShown lower r query matches a scanned added =
    let ms = sort_by (descending (λ m. m.priority)) a.matches in
    let (bound, others, once) = results_of-AreNew max_results [] ms in
    (
      results_of max_results [] ms,
      rw (scanned, added) refl,
      bound,
      once,
      λ m e.
          elim (results_of-IsDone max_results [] ms m
            (Elem-sort_by_intro (descending (λ m. m.priority)) m a.matches e)) [
              | inl seen ↦ cc
              | inr shown ↦ shown
            ],
    )
