-- ===== src/Games/Cache/Kept.antt =====
-- What a lookup of games leaves in the cache, for the next one.
use gechu_backend.Base.{
  ℕ, ◌+◌, ◌≡◌, refl, ◌∙◌, sym, subst, Option, none, some, List, [], ◌∷◌, arith, lt→ltb, ◌==◌,
  ==_iff, if◌then◌else◌, Bool-cases, inl, inr,
}
use gechu_backend.Base.Dict.{Dict, nat_eq, lookup, insert, lookup-insert}
use gechu_backend.Core.Errors.{Result, ok, err}
use gechu_backend.Games.Raw.{RawGame}
use gechu_backend.Games.Names.{Names}
use gechu_backend.Games.Client.{Answer, failed, IgdbClient, get_igdb_client}
use gechu_backend.Games.Client.Search as Requests
use gechu_backend.Games.Response.{GameDetail, build_game_detail}
use gechu_backend.Games.Cache.{Store, Context, Requested, with_client, ask, cached_game, game_ttl}
use gechu_backend.Games.Cache.Bulk.{
  Found, found_one, find_cached, put_game, add_detail, add_row, go_on, add_rows, add_answer,
  add_missing,
}

module _ (ctx : Context) where
  -- What was gathered is kept.
  abbrev pub AreKept : Dict ℕ GameDetail → Store → Type 0
  AreKept results s =
      (id : ℕ) (d : GameDetail) → lookup id results ≡ some d → cached_game ctx id s ≡ some d

  cached_game-put :
      (id j : ℕ) (d : GameDetail) (names : Names) (s : Store)
      → cached_game ctx j (put_game ctx id d names s)
        ≡ (if j == id then some d else cached_game ctx j s)
  unfolding cached_game
  cached_game-put id j d names s =
      let fresh = lt→ltb ctx.now (ctx.now + game_ttl) (omega arith) in
      rw (lookup-insert id j (record { value = d; until = ctx.now + game_ttl }) s.games)
        (elim (Bool-cases (j == id)) [
          | inl same ↦ rw (same, fresh) refl
          | inr differs ↦ rw differs refl
        ])

  insert-AreKept :
      (id : ℕ) (d : GameDetail) (results : Dict ℕ GameDetail) (s s' : Store)
      → AreKept results s
      → ((j : ℕ) → cached_game ctx j s' ≡ (if j == id then some d else cached_game ctx j s))
      → AreKept (insert id d results) s'
  insert-AreKept id d results s s' h put j e found =
      let found' = rw (lookup-insert id j d results) at found in
      put j ∙ (elim (Bool-cases (j == id)) [
        | inl same ↦ rw same (rw same at found')
        | inr differs ↦ rw differs (h j e (rw differs at found'))
      ])

  -- A game that is kept already
  same_game :
      (id : ℕ) (d : GameDetail) (s : Store)
      → cached_game ctx id s ≡ some d
      → (j : ℕ) → cached_game ctx j s ≡ (if j == id then some d else cached_game ctx j s)
  same_game id d s h j = elim (Bool-cases (j == id)) [
    | inl same ↦ rw same (subst (λ k. cached_game ctx k s ≡ some d) (sym ((==_iff j id).0 same)) h)
    | inr differs ↦ rw differs refl
  ]

  found_one-AreKept :
      (id : ℕ) (o : Option GameDetail) (f : Found) (s : Store)
      → cached_game ctx id s ≡ o
      → AreKept f.results s
      → AreKept (found_one id o f).results s
  found_one-AreKept id none f s there h = h
  found_one-AreKept id (some d) f s there h =
      insert-AreKept id d f.results s s h (same_game id d s there)

  pub find_cached-AreKept :
      (ids : List ℕ) (s : Store) (f : Found)
      → AreKept f.results s
      → AreKept (find_cached ctx ids s f).results s
  unfolding find_cached
  find_cached-AreKept [] s f h = h
  find_cached-AreKept (id ∷ ids) s f h =
      find_cached-AreKept ids s (found_one id (cached_game ctx id s) f)
        (found_one-AreKept id (cached_game ctx id s) f s refl h)

  -- What follows a call that succeeded
  go_on-ok :
      (r : Result (Dict ℕ GameDetail) × Store)
      (rest : Dict ℕ GameDetail → Store → Result (Dict ℕ GameDetail) × Store)
      (results' : Dict ℕ GameDetail) (s' : Store)
      → Path (Result (Dict ℕ GameDetail) × Store) (go_on ctx r rest) (ok results', s')
      → (results : Dict ℕ GameDetail) × (s : Store) × (Path
          (Result (Dict ℕ GameDetail) × Store)
          r
          (ok results, s))
        × (Path (Result (Dict ℕ GameDetail) × Store) (rest results s) (ok results', s'))
  go_on-ok (err e, s) rest results' s' h = cc
  go_on-ok (ok results, s) rest results' s' h = (results, s, refl, h)

  add_detail-AreKept :
      (o : Option ℕ) (built : Result GameDetail × Names) (results results' : Dict ℕ GameDetail)
      (s s' : Store)
      → Path
          (Result (Dict ℕ GameDetail) × Store)
          (add_detail ctx o built results s)
          (ok results', s')
      → AreKept results s
      → AreKept results' s'
  add_detail-AreKept o (err e, names) results results' s s' h kept = cc
  add_detail-AreKept none (ok d, names) results results' s s' h kept = cc
  add_detail-AreKept (some id) (ok d, names) results results' s s' h kept =
      let e : insert id d results ≡ results' = cc in
      let e' : put_game ctx id d names s ≡ s' = cc in
      subst (λ t. AreKept results' t) e'
        (subst (λ r. AreKept r (put_game ctx id d names s)) e
          (insert-AreKept id d results s (put_game ctx id d names s) kept
            (λ j. cached_game-put id j d names s)))

  add_rows-AreKept :
      (rows : List RawGame) (results results' : Dict ℕ GameDetail) (s s' : Store)
      → Path (Result (Dict ℕ GameDetail) × Store) (add_rows ctx rows results s) (ok results', s')
      → AreKept results s
      → AreKept results' s'
  unfolding add_rows add_row
  add_rows-AreKept [] results results' s s' h kept =
      let e : results ≡ results' = cc in
      let e' : s ≡ s' = cc in subst (λ t. AreKept results' t) e' (subst (λ r. AreKept r s) e kept)
  add_rows-AreKept (raw ∷ rows) results results' s s' h kept =
      let (r, t, here, later) =
        go_on-ok (add_row ctx raw results s) (add_rows ctx rows) results' s' h in
      add_rows-AreKept rows r results' t s' later (
        add_detail-AreKept raw.id (build_game_detail ctx.outside ctx.now raw s.names) results r s t
          here kept)

  -- A request leaves the details alone.
  ask-AreKept :
      (results : Dict ℕ GameDetail) {A : Type 0} (request : Requested A) (s : Store)
      → AreKept results s
      → AreKept results (ask ctx request s).1
  unfolding ask cached_game
  ask-AreKept results request s h = after (get_igdb_client ctx.remote s.client)
    where
      after : (c : Answer IgdbClient) → AreKept results (with_client c request s).1
      after (failed e) = h
      after (Answer.ok c) = h

  pub add_missing-AreKept :
      (ids : List ℕ) (results results' : Dict ℕ GameDetail) (s s' : Store)
      → Path (Result (Dict ℕ GameDetail) × Store) (add_missing ctx ids results s) (ok results', s')
      → AreKept results s
      → AreKept results' s'
  add_missing-AreKept [] results results' s s' h kept =
      let e : results ≡ results' = cc in
      let e' : s ≡ s' = cc in subst (λ t. AreKept results' t) e' (subst (λ r. AreKept r s) e kept)
  add_missing-AreKept (id ∷ ids) results results' s s' h kept =
      answered (ask ctx (Requests.get_games_by_ids ctx.remote (id ∷ ids)) s) h
        (ask-AreKept results (Requests.get_games_by_ids ctx.remote (id ∷ ids)) s kept)
    where
      answered :
          (r : Answer (List RawGame) × Store)
          → Path (Result (Dict ℕ GameDetail) × Store) (add_answer ctx results r) (ok results', s')
          → AreKept results r.1
          → AreKept results' s'
      answered (failed e, t) h k = cc
      answered (Answer.ok rows, t) h k = add_rows-AreKept rows results results' t s' h k
