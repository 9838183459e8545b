-- ===== src/Games/Cache/Again.antt =====
-- A lookup of the same games again: get_games_by_ids of apps/games/igdb/cache.py
use gechu_backend.Base.{
  ℕ, suc, ◌≤◌, ◌≡◌, refl, ap, ◌∙◌, sym, subst, Option, none, some, List, [], ◌∷◌, arith, length,
  All, Elem, ◌==◌, ==_iff, Bool-cases, inl, inr, ◌⊎◌,
}
use gechu_backend.Base.Dict.{Dict, nat_eq, lookup, insert, lookup-insert}
use gechu_backend.Core.Errors.{Result, ok, err}
use gechu_backend.Games.Response.{GameDetail}
use gechu_backend.Games.Cache.{Store, Context}
use gechu_backend.Games.Cache.Bulk.{
  Found, found_one, nothing_found, add_found, collect, find_cached, add_missing, collected,
  get_games_by_ids,
}
use gechu_backend.Games.Cache.Kept.{AreKept, find_cached-AreKept, add_missing-AreKept}

length-collect-le :
    (ids : List ℕ) (results : Dict ℕ GameDetail) → length (collect ids results) ≤ length ids
unfolding collect
length-collect-le [] results = omega arith
length-collect-le (id ∷ ids) results = found_le (lookup id results) (length-collect-le ids results)
  where
    found_le :
        (o : Option GameDetail)
        → length (collect ids results) ≤ length ids
        → length (add_found o (collect ids results)) ≤ suc (length ids)
    found_le none h = omega arith
    found_le (some d) h = omega arith

-- Each of the ids has a detail.
abbrev AllFound : List ℕ → Dict ℕ GameDetail → Type 0
AllFound ids results = All (λ id. (d : GameDetail) × (lookup id results ≡ some d)) ids

all_found :
    (ids : List ℕ) (results : Dict ℕ GameDetail)
    → length (collect ids results) ≡ length ids
    → AllFound ids results
unfolding collect
all_found [] results h = tt
all_found (id ∷ ids) results h = found (all_found ids results) (lookup id results) refl h
  where
    found :
        (length (collect ids results) ≡ length ids → AllFound ids results)
        → (o : Option GameDetail) → lookup id results ≡ o
        → length (add_found o (collect ids results)) ≡ suc (length ids)
        → AllFound (id ∷ ids) results
    found ih none e h = absurd (omega (arith, length-collect-le ids results))
    found ih (some d) e h = ((d, e), ih (omega arith))

collect_cong :
    (ids : List ℕ) (r r' : Dict ℕ GameDetail)
    → ((id : ℕ) → Elem id ids → lookup id r ≡ lookup id r')
    → collect ids r ≡ collect ids r'
unfolding collect
collect_cong [] r r' h = refl
collect_cong (id ∷ ids) r r' h =
    rw (h id (inl refl), collect_cong ids r r' (λ j e. h j (inr e))) refl

module _ (ctx : Context) (results : Dict ℕ GameDetail) (s : Store) where
  -- No more is missing in `g` than in `f`, and the ids have their details.
  abbrev Completes : List ℕ → Found → Found → Type 0
  Completes ids f g =
      (g.missing_ids ≡ f.missing_ids)
      × ((id : ℕ)
          → (Elem id ids ⊎ (lookup id f.results ≡ lookup id results))
          → lookup id g.results ≡ lookup id results)

  -- With every detail kept, the loop over the ids finds them all.
  find_cached_again :
      (ids : List ℕ) (f : Found)
      → AreKept ctx results s
      → AllFound ids results
      → Completes ids f (find_cached ctx ids s f)
  unfolding find_cached
  find_cached_again [] f kept found = (refl, λ id. only id)
    where
      only :
          (id : ℕ)
          → (Elem id [] ⊎ (lookup id f.results ≡ lookup id results))
          → lookup id f.results ≡ lookup id results
      only id (inl e) = absurd e
      only id (inr e) = e
  find_cached_again (id ∷ ids) f kept found =
      let d = found.0.0 in
      let there : lookup id results ≡ some d = found.0.1 in
      let ih = find_cached_again ids (found_one id (some d) f) kept found.1 in
      subst (λ o. Completes (id ∷ ids) f (find_cached ctx ids s (found_one id o f)))
        (sym (kept id d there)) (ih.0, λ j e. ih.1 j (after d there j e))
    where
      after :
          (d : GameDetail)
          → lookup id results ≡ some d
          → (j : ℕ) → (Elem j (id ∷ ids) ⊎ (lookup j f.results ≡ lookup j results))
          → Elem j ids ⊎ (lookup j (insert id d f.results) ≡ lookup j results)
      after d there j (inl (inr e)) = inl e
      after d there j (inl (inl e)) = inr (
          rw (lookup-insert id j d f.results, (==_iff j id).1 e)
            (sym (subst (λ k. lookup k results ≡ some d) (sym e) there)))
      after d there j (inr e) = inr (
          rw (lookup-insert id j d f.results) (elim (Bool-cases (j == id)) [
            | inl same ↦
                rw same
                  (sym (subst (λ k. lookup k results ≡ some d) (sym ((==_iff j id).0 same)) there))
            | inr differs ↦ rw differs e
          ]))

module _ (ctx : Context) where
  collected-ok :
      (ids : List ℕ) (r : Result (Dict ℕ GameDetail) × Store) (ds : List GameDetail) (s' : Store)
      → Path (Result (List GameDetail) × Store) (collected ctx ids r) (ok ds, s')
      → (results : Dict ℕ GameDetail) × (Path
          (Result (Dict ℕ GameDetail) × Store)
          r
          (ok results, s'))
        × (collect ids results ≡ ds)
  collected-ok ids (err e, s) ds s' h = cc
  collected-ok ids (ok results, s) ds s' h = (results, (λ i. (ok results, same i)), cc)
    where
      same : s ≡ s'
      same = cc

  -- When a lookup of games has given a detail for each of the ids, the same lookup at the same time
  -- gives the same details in the same order from the cache, and leaves the state as it is: it asks
  -- IGDB for nothing.
  pub get_games_by_ids_again :
      (ids : List ℕ) (s s' : Store) (details : List GameDetail)
      → Path (Result (List GameDetail) × Store) (get_games_by_ids ctx ids s) (ok details, s')
      → length details ≡ length ids
      → Path (Result (List GameDetail) × Store) (get_games_by_ids ctx ids s') (ok details, s')
  unfolding get_games_by_ids
  get_games_by_ids_again [] s s' details h whole = let e : [] ≡ details = cc in λ i. (ok (e i), s')
  get_games_by_ids_again (id ∷ ids) s s' details h whole =
      let f = find_cached ctx (id ∷ ids) s nothing_found in
      let (results, stored, gave) =
        collected-ok (id ∷ ids) (add_missing ctx f.missing_ids f.results s) details s' h in
      let kept =
        add_missing-AreKept ctx f.missing_ids f.results results s s' stored
          (find_cached-AreKept ctx (id ∷ ids) s nothing_found (λ j d e. cc)) in
      let found = all_found (id ∷ ids) results (ap length gave ∙ whole) in
      let again = find_cached_again ctx results s' (id ∷ ids) nothing_found kept found in
      rw again.0 (λ i. (
        ok (
            (collect_cong (id ∷ ids) (find_cached ctx (id ∷ ids) s' nothing_found).results results
                  (λ j e. again.1 j (inl e))
                ∙ gave)
              i),
        s',
      ))
