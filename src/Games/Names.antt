-- ===== src/Games/Names.antt =====
-- The Korean names of games: the hashes and the locks that apps/games/wikidata/client.py keeps in
-- Redis, each until a time, and the tasks that are enqueued.
pub mod Scan
pub mod Editions
pub mod Resolve
pub mod Wikidata
pub mod Tasks
use gechu_backend.Base.{
  ℕ, zero, suc, ◌+◌, ◌*◌, Bool, true, false, not, Option, none, some, String, List, [], ◌∷◌, ◌++◌,
  filter, ltb, leb, ◌==◌, if◌then◌else◌,
}
use gechu_backend.Base.Dict.{Dict, nat_eq, lookup, insert}
use gechu_backend.Games.Text.{is_blank}
use gechu_backend.Games.Chosung.{get_chosung_normalized}

-- The fields of `games:name_ko:{igdb_id}`
pub record NameHash : Type 0 where
  pub name_ko : Option String
  pub chosung : Option String
  pub fetched_at : Option ℕ
  pub failed_count : Option ℕ
  pub slug : Option String

pub record Until (A : Type 0) : Type 0 where
  pub value : A
  pub until : ℕ

pub record Names : Type 0 where
  pub hashes : Dict ℕ (Until NameHash)
  pub locks : Dict ℕ (Until (Unit {0}))
  pub tasks : List (ℕ × String)

abbrev pub cache_ttl : ℕ
cache_ttl = 30 * 24 * 3600

abbrev pub enqueue_lock_ttl : ℕ
enqueue_lock_ttl = 3600

abbrev pub alive : {A : Type 0} → ℕ → Option (Until A) → Option A
alive now none = none
alive now (some e) = if ltb now e.until then some e.value else none

abbrev pub no_fields : NameHash
no_fields = record {
  name_ko = none;
  chosung = none;
  fetched_at = none;
  failed_count = none;
  slug = none;
}

-- `hgetall`, where a key that is not there has no fields
unfoldable pub hgetall : ℕ → ℕ → Names → Option NameHash
hgetall now id s = alive now (lookup id s.hashes)

abbrev pub fields_or : Option NameHash → NameHash
fields_or none = no_fields
fields_or (some h) = h

-- The name of a hash that was fetched and is not empty
abbrev pub not_blank : Option String → Option String
not_blank none = none
not_blank (some s) = if is_blank s then none else some s

abbrev pub fetched_name : Option ℕ → Option String → Option String
fetched_name none name = none
fetched_name (some t) name = not_blank name

unfoldable pub get_name_ko_from_cache : ℕ → ℕ → Names → Option String
get_name_ko_from_cache now id s =
    let h = fields_or (hgetall now id s) in fetched_name h.fetched_at h.name_ko

abbrev pub chosung_of : Option String → String
chosung_of none = ""
chosung_of (some name) = if is_blank name then "" else get_chosung_normalized name

abbrev pub name_or_blank : Option String → String
name_or_blank none = ""
name_or_blank (some name) = name

abbrev pub put_hash : ℕ → ℕ → NameHash → Names → Names
put_hash now id h s = record s {
  hashes = insert id (record { value = h; until = now + cache_ttl }) s.hashes;
}

unfoldable pub save_name_ko : ℕ → ℕ → Option String → String → Names → Names
save_name_ko now id name slug s =
    let h = fields_or (hgetall now id s) in
    put_hash now id
      (record h {
        name_ko = some (name_or_blank name);
        chosung = some (chosung_of name);
        fetched_at = some now;
        slug = if is_blank slug then h.slug else some slug;
      })
      s

abbrev pub count_or : Option ℕ → ℕ
count_or none = 0
count_or (some n) = n

unfoldable pub increment_failed_count : ℕ → ℕ → Names → ℕ × Names
increment_failed_count now id s =
    let h = fields_or (hgetall now id s) in
    let count = count_or h.failed_count + 1 in
    (count, put_hash now id (record h { failed_count = some count }) s)

unfoldable pub get_failed_count : ℕ → ℕ → Names → ℕ
get_failed_count now id s = count_or (fields_or (hgetall now id s)).failed_count

-- `set(key, "1", nx=True, ex=...)`
abbrev pub set_nx : ℕ → ℕ → Option (Unit {0}) → Names → Bool × Names
set_nx now id (some held) s = (false, s)
set_nx now id none s = (
  true,
  record s { locks = insert id (record { value = tt; until = now + enqueue_lock_ttl }) s.locks },
)

unfoldable pub acquire_enqueue_lock : ℕ → ℕ → Names → Bool × Names
acquire_enqueue_lock now id s = set_nx now id (alive now (lookup id s.locks)) s

unfoldable pub remove : {V : Type 0} → ℕ → Dict ℕ V → Dict ℕ V
remove id [] = []
remove id ((j, v) ∷ d) = if id == j then remove id d else (j, v) ∷ remove id d

unfoldable pub release_enqueue_lock : ℕ → Names → Names
release_enqueue_lock id s = record s { locks = remove id s.locks }
