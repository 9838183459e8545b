-- ===== src/Games/Cache/Fit.antt =====
-- Searches fit their arguments: search_games of apps/games/igdb/cache.py, as the recommendation
-- tasks use it.
use gechu_backend.Base.{
  ℕ, String, Elem, [], ◌∷◌, ◌∙◌, sym, ◌+◌, ◌≡◌, refl, subst, ap, Option, none, some, List, map,
  length, ◌≤◌, ◌==◌, ==_iff, ltb, Bool-cases, inl, inr, IsDistinct,
}
use gechu_backend.Base.Dict.{Dict, nat_eq, lookup, lookup-insert}
use gechu_backend.Core.Errors.{Error, igdb_rate_limit, igdb_server_error, Result, ok, err}
use gechu_backend.Games.Raw.{RawGame}
use gechu_backend.Games.Names.{Names, Until, alive}
use gechu_backend.Games.Client.{
  auth_error, not_found_error, request_error, rate_limit_error, server_error, http_error, Answer,
  failed, IgdbClient, get_igdb_client,
}
use gechu_backend.Games.Client.Search as Requests
use gechu_backend.Games.Client.Search.{Search, query_or, search_query}
use gechu_backend.Games.Response.{GameListItem}
use gechu_backend.Games.Keys.{
  Json, params_of, limit_of, limit_of-params_of, Params, by_filters, by_genre,
}
use gechu_backend.Games.Cache.{
  Store, Context, with_client, ask, search_of, search_ttl, build_items, keep_search, cached_search,
  stale_or, searched, cached_or, search_games,
}
use gechu_backend.Games.Cache.Answers.{
  KeepsLimits, AnswerFits, post_with_auth_retry-AnswerFits, query_or-limit,
}
use gechu_backend.Games.Cache.Items.{StandsFor, build_items-StandsFor}

-- The results of a search are at most as many as it asks for, and each game is there once.
abbrev pub Fits : Params → List GameListItem → Type 0
Fits p items = (length items ≤ limit_of p) × IsDistinct (map (λ i. i.id) items)

abbrev pub ResultFits : Params → Result (List GameListItem) → Type 0
ResultFits p (ok items) = Fits p items
ResultFits p (err e) = Unit

-- Among the searches that are asked for, those with the same key have the same arguments.
abbrev pub TellsApart : (Dict String Json → ℕ) → List Params → Type 0
TellsApart digest asked =
    (p p' : Params)
    → Elem p asked
    → Elem p' asked
    → digest (params_of p) ≡ digest (params_of p')
    → params_of p ≡ params_of p'

search_of-limit : (ctx : Context) (p : Params) → (search_of ctx.filters p).limit ≡ limit_of p
unfolding search_of
search_of-limit ctx (by_filters query genre_ids platform_ids tag_ids sort limit offset) = refl
search_of-limit ctx (by_genre igdb_genre_id sort limit min_count min_rate min_date) = refl

-- What is kept, at any time, by the key of a search fits the search.
abbrev pub FitsAt : (Dict String Json → ℕ) → Params → Store → Type 0
FitsAt digest p s =
    (e : Until (List GameListItem))
    → lookup (digest (params_of p)) s.searches ≡ some e
    → Fits p e.value

-- So it is for every search that is asked for.
abbrev pub AreFit : (Dict String Json → ℕ) → List Params → Store → Type 0
AreFit digest asked s = (p : Params) → Elem p asked → FitsAt digest p s

abbrev pub IsFit :
    (Dict String Json → ℕ) → List Params → Params → Result (List GameListItem) × Store → Type 0
IsFit digest asked p (r, s) = ResultFits p r × AreFit digest asked s

alive-some :
    {A : Type 0} (now : ℕ) (o : Option (Until A)) (v : A)
    → alive now o ≡ some v
    → (e : Until A) × (o ≡ some e) × (e.value ≡ v)
alive-some now none v h = cc
alive-some now (some e) v h = elim (Bool-cases (ltb now e.until)) [
  | inl early ↦ (e, refl, let h' = rw early at h in cc)
  | inr late ↦ let h' = rw late at h in cc
]

module _ (ctx : Context) (keeps : KeepsLimits ctx.remote) (asked : List Params)
    (tells : TellsApart ctx.digest asked) (p : Params) (known : Elem p asked) where
  cached_search-Fits :
      (items : List GameListItem) (s : Store)
      → cached_search ctx (ctx.digest (params_of p)) s ≡ some items
      → AreFit ctx.digest asked s
      → Fits p items
  unfolding cached_search
  cached_search-Fits items s there h =
      let (e, found, same) =
        alive-some ctx.now (lookup (ctx.digest (params_of p)) s.searches) items there in
      subst (λ l. Fits p l) same (h p known e found)

  stale_or-IsFit :
      (o : Option (List GameListItem)) (e : Error) (s : Store)
      → cached_search ctx (ctx.digest (params_of p)) s ≡ o
      → AreFit ctx.digest asked s
      → IsFit ctx.digest asked p (stale_or ctx o e s)
  stale_or-IsFit none e s there h = (tt, h)
  stale_or-IsFit (some items) e s there h = (cached_search-Fits items s there h, h)

  Fits-same :
      (kept e : Until (List GameListItem)) (p' : Params)
      → some kept ≡ some e
      → limit_of p' ≡ limit_of p
      → Fits p kept.value
      → Fits p' e.value
  Fits-same kept e p' h limit fit = let same : kept ≡ e = cc in rw (limit, ← same) fit

  insert-AreFit :
      (items : List GameListItem) (names : Names) (s : Store)
      → Fits p items
      → AreFit ctx.digest asked s
      → IsFit ctx.digest asked p (keep_search ctx (ctx.digest (params_of p)) (ok items, names) s)
  insert-AreFit items names s fit h = (
    fit,
    λ p' known' e found.
        let found' =
          rw
            (lookup-insert (ctx.digest (params_of p)) (ctx.digest (params_of p'))
              (record { value = items; until = ctx.now + search_ttl }) s.searches)
            at found in
        elim (Bool-cases (ctx.digest (params_of p') == ctx.digest (params_of p))) [
          | inl same ↦
              Fits-same (record { value = items; until = ctx.now + search_ttl }) e p'
                (rw same at found')
                (limit_of-params_of p' p (
                  tells p' p known' known
                    ((==_iff (ctx.digest (params_of p')) (ctx.digest (params_of p))).0 same)))
                fit
          | inr differs ↦ h p' known' e (rw differs at found')
        ],
  )

  keep_search-IsFit :
      (rows : List RawGame) (r : Result (List GameListItem) × Names) (s : Store)
      → AnswerFits (limit_of p) (Answer.ok rows)
      → StandsFor ctx rows r.0
      → AreFit ctx.digest asked s
      → IsFit ctx.digest asked p (keep_search ctx (ctx.digest (params_of p)) r s)
  keep_search-IsFit rows (err e, names) s fit stands h = (tt, h)
  keep_search-IsFit rows (ok items, names) s fit stands h =
      insert-AreFit items names s (rw (stands.0, stands.1) fit) h

  searched-IsFit :
      (a : Answer (List RawGame) × Store)
      → AnswerFits (limit_of p) a.0
      → AreFit ctx.digest asked a.1
      → IsFit ctx.digest asked p (searched ctx (ctx.digest (params_of p)) a)
  searched-IsFit (Answer.ok rows, s) fit h =
      keep_search-IsFit rows (build_items ctx rows s.names) s fit
        (build_items-StandsFor ctx rows s.names) h
  searched-IsFit (failed (rate_limit_error n), s) fit h =
      stale_or-IsFit (cached_search ctx (ctx.digest (params_of p)) s) igdb_rate_limit s refl h
  searched-IsFit (failed (server_error n), s) fit h =
      stale_or-IsFit (cached_search ctx (ctx.digest (params_of p)) s) igdb_server_error s refl h
  searched-IsFit (failed auth_error, s) fit h = (tt, h)
  searched-IsFit (failed not_found_error, s) fit h = (tt, h)
  searched-IsFit (failed request_error, s) fit h = (tt, h)
  searched-IsFit (failed (http_error n), s) fit h = (tt, h)

  -- The request, by a client that may have to be made first
  ask-AnswerFits :
      (s : Store)
      → AreFit ctx.digest asked s
      → let a = ask ctx (Requests.search_games ctx.remote (search_of ctx.filters p)) s in
        AnswerFits (limit_of p) a.0 × AreFit ctx.digest asked a.1
  unfolding ask Requests.search_games search_query
  ask-AnswerFits s h = by_client (get_igdb_client ctx.remote s.client)
    where
      by_client :
          (c : Answer IgdbClient)
          → let a = with_client c (Requests.search_games ctx.remote (search_of ctx.filters p)) s in
            AnswerFits (limit_of p) a.0 × AreFit ctx.digest asked a.1
      by_client (failed e) = (tt, h)
      by_client (Answer.ok c) = (
        post_with_auth_retry-AnswerFits ctx.remote keeps (search_query (search_of ctx.filters p))
            (limit_of p) c
            (query_or-limit (search_of ctx.filters p).query (search_of ctx.filters p)
              ∙ ap some (search_of-limit ctx p)),
        h,
      )

  cached_or-IsFit :
      (o : Option (List GameListItem)) (search : Store → Result (List GameListItem) × Store)
      (s : Store)
      → cached_search ctx (ctx.digest (params_of p)) s ≡ o
      → AreFit ctx.digest asked s
      → IsFit ctx.digest asked p (search s)
      → IsFit ctx.digest asked p (cached_or ctx o search s)
  cached_or-IsFit none search s there h found = found
  cached_or-IsFit (some items) search s there h found = (cached_search-Fits items s there h, h)

  -- While IGDB keeps to the limits of the queries and names no game twice, and among the searches
  -- that are asked for those with the same key have the same arguments, a search gives at most as
  -- many games as it asks for, none twice, and what is kept of the searches asked for stays so,
  -- whether it is answered by IGDB, from the cache or not.
  pub search_games-IsFit :
      (s : Store) → AreFit ctx.digest asked s → IsFit ctx.digest asked p (search_games ctx p s)
  unfolding search_games
  search_games-IsFit s h =
      let a = ask ctx (Requests.search_games ctx.remote (search_of ctx.filters p)) s in
      let (fit, kept) = ask-AnswerFits s h in
      cached_or-IsFit (cached_search ctx (ctx.digest (params_of p)) s)
        (λ s'.
          searched ctx (ctx.digest (params_of p))
            (ask ctx (Requests.search_games ctx.remote (search_of ctx.filters p)) s'))
        s refl h (searched-IsFit a fit kept)

-- What fits the search by whose key it is kept is enough for the search.
pub search_games-ResultFits :
    (ctx : Context)
    → KeepsLimits ctx.remote
    → (p : Params) (s : Store) → FitsAt ctx.digest p s
    → ResultFits p (search_games ctx p s).0
search_games-ResultFits ctx keeps p s fits =
    (search_games-IsFit ctx keeps (p ∷ [])
      (λ q q' e e' same. ap params_of (only q e ∙ sym (only q' e'))) p (inl refl) s
      (λ q e. subst (λ r. FitsAt ctx.digest r s) (sym (only q e)) fits)).0
  where
    only : (q : Params) → Elem q (p ∷ []) → q ≡ p
    only q (inl same) = same
    only q (inr none_left) = absurd none_left
