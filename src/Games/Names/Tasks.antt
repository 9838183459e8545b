-- ===== src/Games/Names/Tasks.antt =====
-- apps/games/tasks.py: the tasks that fetch Korean names, one at once or in bulk.
use gechu_backend.Base.{
  ℕ, ◌+◌, ◌*◌, Bool, true, false, ◌&&◌, Option, none, some, String, List, [], ◌∷◌, ◌++◌, take,
  length, elem, ltb, leb, if◌then◌else◌,
}
use gechu_backend.Base.Dict.{Dict, nat_eq, lookup}
use gechu_backend.Core.Errors.{Error, Result, ok, err}
use gechu_backend.Games.Text.{is_blank}
use gechu_backend.Games.Names.{
  NameHash, Names, hgetall, fields_or, name_or_blank, count_or, save_name_ko,
  increment_failed_count, release_enqueue_lock,
}
use gechu_backend.Games.Names.Wikidata.{Wikidata, sparql_query, Saved, fetch_and_save_bulk}

-- What `self.retry(countdown=60, exc=exc)` raises
pub data Retried : Type 0 where
  retry max_retries_exceeded : Retried
  raised : Error → Retried

-- Celery's `retry`, by the number of retries so far and the exception it is given
abbrev pub Celery : Type 0
Celery = ℕ → Error → Retried

pub data Outcome : Type 0 where
  done : Outcome
  stopped : Retried → Outcome

abbrev pub finish_retry : Retried → ℕ → Names → Outcome × Names
finish_retry retry id s = (stopped retry, s)
finish_retry max_retries_exceeded id s = (stopped max_retries_exceeded, release_enqueue_lock id s)
finish_retry (raised e) id s = (stopped (raised e), s)

module _ (wikidata : Wikidata) (celery : Celery) where
  abbrev pub finish : Result (Dict ℕ String) → ℕ → ℕ → ℕ → String → Names → Outcome × Names
  finish (ok result) retries now id slug s =
      (done, release_enqueue_lock id (save_name_ko now id (lookup id result) slug s))
  finish (err e) retries now id slug s =
      finish_retry (celery retries e) id (increment_failed_count now id s).1

  -- `retries` counts the retries of this task before now.
  unfoldable pub fetch_name_ko_task : ℕ → ℕ → ℕ → String → Names → Outcome × Names
  fetch_name_ko_task retries now id slug s =
      finish (sparql_query wikidata ((slug, id) ∷ [])) retries now id slug s

abbrev pub backfill_batch : ℕ
backfill_batch = 500

abbrev pub retry_after_seconds : ℕ
retry_after_seconds = 7 * 24 * 3600

-- The ids that are gathered
pub record Gathered : Type 0 where
  pub pending_ids : List ℕ
  pub retry_ids : List ℕ

abbrev pub is_due : ℕ → Option ℕ → Bool
is_due now none = false
is_due now (some fetched_at) = ltb (fetched_at + retry_after_seconds) now

abbrev pub is_pending : NameHash → Bool
is_pending h = elim h.fetched_at [ none ↦ true | some t ↦ false ]

-- Fetched with no name, a while ago, and not failed too often
unfoldable pub is_retry : ℕ → NameHash → Bool
is_retry now h =
    is_blank (name_or_blank h.name_ko) && ltb (count_or h.failed_count) 3 && is_due now h.fetched_at

unfoldable pub gather_one : ℕ → ℕ → NameHash → Gathered → Gathered
gather_one now id h g =
    if is_pending h
    then record g { pending_ids = g.pending_ids ++ id ∷ [] }
    else if is_retry now h
    then record g { retry_ids = g.retry_ids ++ id ∷ [] }
    else g

abbrev pub gather_key : ℕ → Option ℕ → Option NameHash → Gathered → Gathered
gather_key now (some id) (some h) g = gather_one now id h g
gather_key now none h g = g
gather_key now (some id) none g = g

abbrev pub is_full : Gathered → Bool
is_full g = leb (backfill_batch * 2) (length g.pending_ids + length g.retry_ids)

-- The keys in the order in which SCAN gives them, over all its pages; a key whose number cannot be
-- read is `none`.
unfoldable pub gather : ℕ → List (Option ℕ × Option NameHash) → Gathered → Gathered
gather now [] g = g
gather now ((id, h) ∷ keys) g =
    let rest = gather now keys (gather_key now id h g) in if is_full g then g else rest

-- `set(ids)`, in the order of the first of each
unfoldable pub set_of : List ℕ → List ℕ → List ℕ
set_of seen [] = seen
set_of seen (id ∷ ids) = set_of (if elem id seen then seen else seen ++ id ∷ []) ids

unfoldable pub all_ids : Gathered → List ℕ
all_ids g = set_of [] (take backfill_batch g.pending_ids ++ take backfill_batch g.retry_ids)

abbrev pub slug_item : ℕ → Option String → List (ℕ × String)
slug_item id none = []
slug_item id (some slug) = if is_blank slug then [] else (id, slug) ∷ []

-- `igdb_id_to_slug`
unfoldable pub slugs_of : ℕ → List ℕ → Names → List (ℕ × String)
slugs_of now [] s = []
slugs_of now (id ∷ ids) s = slug_item id (fields_or (hgetall now id s)).slug ++ slugs_of now ids s

abbrev pub count_miss : ℕ → ℕ → Option String → Names → Names
count_miss now id none s = (increment_failed_count now id s).1
count_miss now id (some name) s = if is_blank name then (increment_failed_count now id s).1 else s

unfoldable pub count_misses : ℕ → Dict ℕ (Option String) → Names → Names
count_misses now [] s = s
count_misses now ((id, name) ∷ results) s = count_misses now results (count_miss now id name s)

abbrev pub counted : ℕ → Result Saved × Saved → Result (Unit {0}) × Names
counted now (ok saved, s) = (ok tt, count_misses now saved.result saved.names)
counted now (err e, s) = (err e, s.names)

abbrev pub backfill_slugs : Wikidata → ℕ → List (ℕ × String) → Names → Result (Unit {0}) × Names
backfill_slugs wikidata now [] s = (ok tt, s)
backfill_slugs wikidata now (i ∷ items) s =
    counted now (fetch_and_save_bulk wikidata now (i ∷ items) s)

abbrev pub nothing_gathered : Gathered
nothing_gathered = record { pending_ids = []; retry_ids = [] }

unfoldable pub backfill_name_ko_bulk :
    Wikidata → ℕ → List (Option ℕ × Option NameHash) → Names → Result (Unit {0}) × Names
backfill_name_ko_bulk wikidata now keys s =
    let ids = all_ids (gather now keys nothing_gathered) in
    backfill_slugs wikidata now (slugs_of now ids s) s
