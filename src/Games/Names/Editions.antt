-- ===== src/Games/Names/Editions.antt =====
-- The suffixes of editions: _extract_edition_suffix and _infer_parent_game_id of
-- apps/games/wikidata/resolvers.py, and _remove_edition_suffix of apps/games/wikidata/client.py.
-- `lower` is `str.lower`.
use gechu_backend.Base.{
  ℕ, Bool, true, false, not, ◌&&◌, ◌||◌, Option, none, some, String, List, [], ◌∷◌, any, length,
  string_eq, leb, ◌==◌, if◌then◌else◌,
}
use gechu_backend.Core.Errors.{Result, ok, err}
use gechu_backend.Games.Text.{is_blank, contains, strip, ◌+++◌}
use gechu_backend.Games.Raw.{get_or, RawGame}
use gechu_backend.Games.Converters.{◌>>=◌, required, not_none}
use gechu_backend.Games.Names.Scan.{
  dash_suffix, after_last, words, remove_all, ends_with, cut, remove_number,
}

-- edition_keywords.json
pub record Keywords : Type 0 where
  pub edition_keywords : List String
  pub strong_keywords : List String
  pub special_single_keywords : List String

abbrev among : String → List String → Bool
among s xs = any (string_eq s) xs

-- The last two of a list of words
unfoldable pub last_words : List String → Option (String × String)
last_words [] = none
last_words (w ∷ []) = none
last_words (v ∷ w ∷ []) = some (v, w)
last_words (u ∷ v ∷ w ∷ ws) = last_words (v ∷ w ∷ ws)

module _ (lower : String → String) (kw : Keywords) where
  -- Pattern 1: " - suffix"
  unfoldable pub dashed_edition : Option String → Option String
  dashed_edition none = none
  dashed_edition (some group) =
      let suffix = strip group in
      if any (λ k. contains (lower suffix) (lower k)) kw.edition_keywords then some suffix else none

  -- Pattern 2: ": suffix", of at most four words
  unfoldable pub colon_edition : Option String → Option String
  colon_edition none = none
  colon_edition (some part) =
      let last_part = strip part in
      let count = length (words last_part) in
      let single = among (lower last_part) kw.strong_keywords in
      let several = any (λ k. contains (lower last_part) k) kw.strong_keywords in
      if leb count 4 && (if count == 1 then single else several) then some last_part else none

  -- Pattern 3: the last word alone
  unfoldable pub word_edition : Option (String × String) → Option String
  word_edition none = none
  word_edition (some (second_last, last_word)) =
      if among (lower last_word) kw.strong_keywords
      then some last_word
      else if among (lower last_word) kw.special_single_keywords
          && not (any (λ k. string_eq (lower k) (lower second_last)) kw.edition_keywords)
      then some last_word
      else none

  abbrev or_next : Option String → Option String → Option String
  or_next none t = t
  or_next (some s) t = some s

  abbrev suffix_or_blank : Option String → String
  suffix_or_blank none = ""
  suffix_or_blank (some s) = s

  unfoldable pub extract_edition_suffix : String → String
  extract_edition_suffix full_name = suffix_or_blank (
      or_next (dashed_edition (dash_suffix full_name)) (
        or_next (colon_edition (after_last ": " full_name))
          (word_edition (last_words (words full_name)))))

  -- The name without its suffix
  unfoldable pub base_name_of : String → String → String
  base_name_of game_name suffix =
      if contains game_name (" - " +++ suffix)
      then strip (remove_all (" - " +++ suffix) game_name)
      else if contains game_name (": " +++ suffix)
      then strip (remove_all (": " +++ suffix) game_name)
      else if ends_with game_name (" " +++ suffix)
      then strip (cut (" " +++ suffix) game_name)
      else game_name

  -- The game of exactly that name, or the first one
  unfoldable pub exact_or : String → List RawGame → Result (Option ℕ) → Result (Option ℕ)
  exact_or base_name [] first_one = first_one
  exact_or base_name (game ∷ games) first_one =
      let later = exact_or base_name games first_one in
      not_none (get_or "" game.name) >>= λ name. (elim (string_eq (lower name) (lower base_name)) [
        | true ↦ required game.id >>= λ id. ok (some id)
        | false ↦ later
      ])

  abbrev first_id : List RawGame → Result (Option ℕ)
  first_id [] = ok none
  first_id (game ∷ games) = required game.id >>= λ id. ok (some id)

  -- `except Exception: pass`
  abbrev or_nothing : Result (Option ℕ) → Option ℕ
  or_nothing (ok id) = id
  or_nothing (err e) = none

  -- `search` is `client.search_games(query=..., limit=5)`
  unfoldable pub infer_parent_game_id : (String → Result (List RawGame)) → String → Option ℕ
  infer_parent_game_id search game_name =
      let suffix = extract_edition_suffix game_name in
      let base_name = base_name_of game_name suffix in
      if is_blank suffix || is_blank base_name || string_eq base_name game_name
      then none
      else or_nothing (search base_name >>= λ games. exact_or base_name games (first_id games))

abbrev edition_suffixes : List String
edition_suffixes =
    "-deluxe-edition" ∷ "-gold-edition" ∷ "-goty-edition" ∷ "-game-of-the-year-edition"
    ∷ "-complete-edition" ∷ "-definitive-edition" ∷ "-ultimate-edition" ∷ "-special-edition"
    ∷ "-collectors-edition" ∷ "-enhanced-edition" ∷ "-remastered" ∷ "-remake" ∷ "-hd"
    ∷ "-collection" ∷ "-bundle" ∷ "-legacy-collection" ∷ "-omega-collection" ∷ []

unfoldable pub cut_first : List String → String → String
cut_first [] slug = slug
cut_first (suffix ∷ suffixes) slug =
    if ends_with slug suffix then cut suffix slug else cut_first suffixes slug

unfoldable pub remove_edition_suffix : String → String
remove_edition_suffix slug = cut_first edition_suffixes (remove_number slug)
