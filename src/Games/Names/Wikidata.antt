-- ===== src/Games/Names/Wikidata.antt =====
-- The queries of apps/games/wikidata/client.py.
use gechu_backend.Base.{ℕ, Option, none, some, String, List, [], ◌∷◌, string_eq, if◌then◌else◌}
use gechu_backend.Base.Chunks.{chunks}
use gechu_backend.Base.Dict.{Dict, nat_eq, lookup, insert}
use gechu_backend.Base.Keys.{text_key}
use gechu_backend.Core.Errors.{Error, Result, ok, err}
use gechu_backend.Games.Names.{Names, save_name_ko}
use gechu_backend.Games.Names.Editions.{remove_edition_suffix}

-- A row of the answer, with the keys that it lacks
pub record Binding : Type 0 where
  pub slug : Option String
  pub name_ko : Option String

-- A failure of the network or of the answer's form, which sparql_query logs, is `failed`.
pub data Answer : Type 0 where
  bindings : List Binding → Answer
  failed : Answer
  raises : Error → Answer

-- Wikidata's answer about a list of slugs
abbrev pub Wikidata : Type 0
Wikidata = List String → Answer

abbrev pub add_binding : Option ℕ → Option String → Dict ℕ String → Dict ℕ String
add_binding (some id) (some name) result = insert id name result
add_binding (some id) none result = result
add_binding none name result = result

abbrev pub id_of : Option String → Dict String ℕ → Option ℕ
id_of none slug_to_id = none
id_of (some slug) slug_to_id = lookup slug slug_to_id

unfoldable pub add_bindings : List Binding → Dict String ℕ → Dict ℕ String → Dict ℕ String
add_bindings [] slug_to_id result = result
add_bindings (row ∷ rows) slug_to_id result =
    add_bindings rows slug_to_id (add_binding (id_of row.slug slug_to_id) row.name_ko result)

abbrev pub answered : Answer → Dict String ℕ → Result (Dict ℕ String)
answered (bindings rows) slug_to_id = ok (add_bindings rows slug_to_id [])
answered failed slug_to_id = ok []
answered (raises e) slug_to_id = err e

abbrev pub keys : Dict String ℕ → List String
keys [] = []
keys ((slug, id) ∷ d) = slug ∷ keys d

module _ (wikidata : Wikidata) where
  unfoldable pub sparql_query : Dict String ℕ → Result (Dict ℕ String)
  sparql_query [] = ok []
  sparql_query (e ∷ d) = answered (wikidata (keys (e ∷ d))) (e ∷ d)

-- `{slug: igdb_id for igdb_id, slug in chunk}`
unfoldable pub slug_to_id_of : List (ℕ × String) → Dict String ℕ → Dict String ℕ
slug_to_id_of [] d = d
slug_to_id_of ((id, slug) ∷ chunk) d = slug_to_id_of chunk (insert slug id d)

-- The slugs that were not found, without their suffixes
abbrev pub retry_slug : Option String → ℕ → String → Dict String ℕ → Dict String ℕ
retry_slug (some name) id slug d = d
retry_slug none id slug d =
    let cleaned_slug = remove_edition_suffix slug in
    if string_eq cleaned_slug slug then d else insert cleaned_slug id d

unfoldable pub failed_slugs_of : List (ℕ × String) → Dict ℕ String → Dict String ℕ → Dict String ℕ
failed_slugs_of [] fetched d = d
failed_slugs_of ((id, slug) ∷ chunk) fetched d =
    failed_slugs_of chunk fetched (retry_slug (lookup id fetched) id slug d)

-- `fetched.update(retry_fetched)`
unfoldable pub update : Dict ℕ String → Dict ℕ String → Dict ℕ String
update fetched [] = fetched
update fetched ((id, name) ∷ more) = update (insert id name fetched) more

-- What was written, with the names of the ids so far
pub record Saved : Type 0 where
  pub names : Names
  pub result : Dict ℕ (Option String)

unfoldable pub save_chunk : ℕ → List (ℕ × String) → Dict ℕ String → Saved → Saved
save_chunk now [] fetched s = s
save_chunk now ((id, slug) ∷ chunk) fetched s = save_chunk now chunk fetched (record {
  names = save_name_ko now id (lookup id fetched) slug s.names;
  result = insert id (lookup id fetched) s.result;
})

abbrev pub bulk_chunk_size : ℕ
bulk_chunk_size = 50

module _ (wikidata : Wikidata) (now : ℕ) where
  abbrev pub retried : Result (Dict ℕ String) → Dict ℕ String → Result (Dict ℕ String)
  retried (ok more) fetched = ok (update fetched more)
  retried (err e) fetched = err e

  abbrev pub with_retry : Result (Dict ℕ String) → List (ℕ × String) → Result (Dict ℕ String)
  with_retry (err e) chunk = err e
  with_retry (ok fetched) chunk =
      retried (sparql_query wikidata (failed_slugs_of chunk fetched [])) fetched

  abbrev pub saved : Result (Dict ℕ String) → List (ℕ × String) → Saved → Result Saved × Saved
  saved (err e) chunk s = (err e, s)
  saved (ok fetched) chunk s = let s' = save_chunk now chunk fetched s in (ok s', s')

  -- One round of the loop
  unfoldable pub fetch_chunk : List (ℕ × String) → Saved → Result Saved × Saved
  fetch_chunk chunk s =
      saved (with_retry (sparql_query wikidata (slug_to_id_of chunk [])) chunk) chunk s

  abbrev pub go_on : Result Saved × Saved → (Saved → Result Saved × Saved) → Result Saved × Saved
  go_on (ok s, s') rest = rest s
  go_on (err e, s') rest = (err e, s')

  unfoldable pub fetch_chunks : List (List (ℕ × String)) → Saved → Result Saved × Saved
  fetch_chunks [] s = (ok s, s)
  fetch_chunks (chunk ∷ chunks) s = go_on (fetch_chunk chunk s) (fetch_chunks chunks)

  unfoldable pub fetch_and_save_bulk : List (ℕ × String) → Names → Result Saved × Saved
  fetch_and_save_bulk items names =
      fetch_chunks (chunks bulk_chunk_size items) (record { names = names; result = [] })
