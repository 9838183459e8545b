-- ===== src/Games/Names/Resolve.antt =====
-- resolve_name_ko and _maybe_enqueue of apps/games/wikidata/resolvers.py
use gechu_backend.Base.{
  ℕ, zero, suc, Bool, true, false, Option, none, some, String, List, [], ◌∷◌, ◌++◌, leb,
  if◌then◌else◌,
}
use gechu_backend.Core.Errors.{Result, ok, err}
use gechu_backend.Games.Text.{is_blank, ◌+++◌}
use gechu_backend.Games.Raw.{Field, get, get_or, RawGame}
use gechu_backend.Games.Converters.{◌>>=◌, none_error, not_none, or_blank}
use gechu_backend.Games.Converters.Relations.{extract_korean_from_alt_names}
use gechu_backend.Games.Names.{
  Names, get_name_ko_from_cache, get_failed_count, acquire_enqueue_lock,
}
use gechu_backend.Games.Names.Editions.{Keywords, extract_edition_suffix, infer_parent_game_id}

abbrev pub max_failed : ℕ
max_failed = 3

-- `fetch_name_ko_task.delay(igdb_id, slug)` if the lock was free
abbrev pub enqueue_if : Bool × Names → ℕ → String → Names
enqueue_if (true, s) id slug = record s { tasks = s.tasks ++ (id, slug) ∷ [] }
enqueue_if (false, s) id slug = s

unfoldable pub maybe_enqueue : ℕ → ℕ → String → Names → Names
maybe_enqueue now id slug s =
    if leb max_failed (get_failed_count now id s)
    then s
    else enqueue_if (acquire_enqueue_lock now id s) id slug

abbrev pub enqueue_slug : ℕ → ℕ → Option String → Names → Names
enqueue_slug now id none s = s
enqueue_slug now id (some slug) s = if is_blank slug then s else maybe_enqueue now id slug s

-- The name of a parent that is there
unfoldable pub parent_name : ℕ → Option ℕ → Names → Option String
parent_name now none s = none
parent_name now (some zero) s = none
parent_name now (some (suc n)) s = get_name_ko_from_cache now (suc n) s

module _ (lower : String → String) (kw : Keywords) (search : String → Result (List RawGame)) where
  -- A name with the suffix of the edition
  unfoldable pub named : String → Field String → Result String
  named name_ko title = not_none (get_or "" title) >>= λ full_name.
      (let suffix = extract_edition_suffix lower kw full_name in
        ok (if is_blank suffix then name_ko else name_ko +++ " - " +++ suffix))

  abbrev pub answer :
      Option String → Field String → Result String × Names → Names → Result String × Names
  answer none title rest s = rest
  answer (some name) title rest s = (named name title, s)

  unfoldable pub pending : ℕ → ℕ → RawGame → Names → Result String × Names
  pending now id raw s = (
    extract_korean_from_alt_names lower raw >>= λ name. ok (or_blank name),
    enqueue_slug now id (get_or "" raw.slug) s,
  )

  abbrev pub inferred_or :
      ℕ → Option String → Field String → Result String × Names → Names → Result String × Names
  inferred_or now none title rest s = (err none_error, s)
  inferred_or now (some full_name) title rest s =
      answer (parent_name now (infer_parent_game_id lower kw search full_name) s) title rest s

  -- The second read of a parent's name, in the guard of the inference, gives what the first gave.
  unfoldable pub resolve_name_ko : ℕ → ℕ → RawGame → Names → Result String × Names
  resolve_name_ko now id raw s =
      let inferred = inferred_or now (get_or "" raw.name) raw.name (pending now id raw s) s in
      let parent = answer (parent_name now (get raw.parent_game) s) raw.name inferred s in
      answer (get_name_ko_from_cache now id s) raw.name parent s
