-- ===== src/Tests/Searches.antt =====
-- The search of games for the recommendations at concrete inputs.
use gechu_backend.Base.{
  ℕ, ◌%◌, ◌^◌, zero, suc, ◌≡◌, ◌≤◌, refl, Option, none, some, List, [], ◌∷◌, arith, length,
  IsDistinct, ◌==◌, inl, inr, Bool-cases,
}
use gechu_backend.Base.Dict.{nat_eq}
use gechu_backend.Core.Errors.{ok}
use gechu_backend.Games.Raw.{RawGame}
use gechu_backend.Games.Client.{Remote, reply, checked}
use gechu_backend.Games.Keys.{limit_in, by_filters, Params}
use gechu_backend.Games.Cache.{Context, Store, cached_search, search_games}
use gechu_backend.Games.Cache.Answers.{KeepsLimits, row_ids}
use gechu_backend.Games.Cache.Fit.{FitsAt, TellsApart, AreFit, IsFit, search_games-IsFit}
use gechu_backend.Recommendations.Candidates.{
  collect_preference_candidates, search_preferred, scored_from, rank_score,
}
use gechu_backend.Base.Round.{round_half_even}
use gechu_backend.Recommendations.Candidates.Catalogue.{popular_among, game_search}
use gechu_backend.Tests.Store.{zelda, context, empty_store, two_games}

-- IGDB has one game, and gives it where the limit lets it.
abbrev within : Option ℕ → List RawGame
within none = zelda ∷ []
within (some zero) = []
within (some (suc n)) = zelda ∷ []

abbrev limited : Remote RawGame
limited = record {
  new_token = λ n. some "token";
  answer = λ n token q. reply 200 none (within q.limit);
}

within-Fits :
    (o : Option ℕ) (limit : ℕ)
    → o ≡ some limit
    → (length (within o) ≤ limit) × IsDistinct (row_ids (within o))
within-Fits none limit h = cc
within-Fits (some zero) limit h = (omega arith, tt)
within-Fits (some (suc n)) limit h = let same : suc n ≡ limit = cc in (omega arith, (refl, tt))

limited-KeepsLimits : KeepsLimits limited
unfolding checked
limited-KeepsLimits n limit token q rows asked answered =
    let same : within q.limit ≡ rows = cc in rw (← same) (within-Fits q.limit limit asked)

-- A key for every limit, of 48 bits
abbrev by_limit : Context
by_limit = record (context limited) { digest = λ params. limit_in params % 2 ^ 48 }

-- A page of the list and the games of the recommendations
abbrev listed : Params
listed = by_filters (some "zelda") none none none "rating desc" 21 0

abbrev popular : Params
popular = by_filters none (some (3 ∷ [])) none none "rating desc" 50 0

abbrev asked : List Params
asked = listed ∷ popular ∷ []

asked-TellsApart : TellsApart by_limit.digest asked
asked-TellsApart p p' (inl e) (inl e') same = rw (e, e') refl
asked-TellsApart p p' (inl e) (inr (inl e')) same =
    let keys = rw (e, e') at same in (let no : ⊥ = omega arith in absurd no)
asked-TellsApart p p' (inr (inl e)) (inl e') same =
    let keys = rw (e, e') at same in (let no : ⊥ = omega arith in absurd no)
asked-TellsApart p p' (inr (inl e)) (inr (inl e')) same = rw (e, e') refl
asked-TellsApart p p' (inl e) (inr (inr n)) same = absurd n
asked-TellsApart p p' (inr (inl e)) (inr (inr n)) same = absurd n
asked-TellsApart p p' (inr (inr n)) e' same = absurd n

-- Two games are kept for the searches of at most fifty.
abbrev kept_store : Store
kept_store = record empty_store { searches = (50, record { value = two_games; until = 2000 }) ∷ [] }

kept_store-AreFit : AreFit by_limit.digest asked kept_store
kept_store-AreFit p (inl e) kept found = let found' = rw e at found in cc
kept_store-AreFit p (inr (inl e)) kept found =
    let found' = rw e at found in
    let same : record { value = two_games; until = 2000 } ≡ kept = cc in
    rw (e, ← same) (omega arith, (refl, (refl, tt)))
kept_store-AreFit p (inr (inr n)) kept found = absurd n

search_games-IsFit_example :
    IsFit by_limit.digest asked popular (search_games by_limit popular kept_store)
search_games-IsFit_example =
    search_games-IsFit by_limit limited-KeepsLimits asked asked-TellsApart popular (inr (inl refl))
      kept_store kept_store-AreFit

kept_store-FitsAt :
    (genre_ids platform_ids tag_ids : Option (List ℕ)) (limit : ℕ)
    → FitsAt by_limit.digest (popular_among genre_ids platform_ids tag_ids limit) kept_store
kept_store-FitsAt genre_ids platform_ids tag_ids limit kept found =
    elim (Bool-cases (limit % 2 ^ 48 == 50)) [
      | inl fifty ↦
          let found' = rw fifty at found in
          let same : record { value = two_games; until = 2000 } ≡ kept = cc in
          rw (← same) (ground arith, (refl, (refl, tt)))
      | inr other ↦ let found' = rw other at found in cc
    ]

-- The games of the kept search are the candidates, in its order.
from_kept :
    collect_preference_candidates
      (game_search by_limit limited-KeepsLimits kept_store kept_store-FitsAt)
      1
      (record { user_id = 1; genre_ids = 3 ∷ []; platform_ids = []; tag_ids = [] } ∷ [])
    ≡ ok ((7, 10000) ∷ (8, 5000) ∷ [])
unfolding collect_preference_candidates search_preferred search_games cached_search scored_from
    rank_score round_half_even
from_kept = refl
