-- ===== src/Games/Converters/Relations.antt =====
-- The relations of a game that apps/games/igdb/converters.py extracts. `lower` is `str.lower`, whose
-- tables are Unicode's.
use gechu_backend.Base.{
  ℕ, zero, suc, Bool, false, ◌||◌, Option, none, some, String, List, [], ◌∷◌, ◌++◌, map,
  if◌then◌else◌,
}
use gechu_backend.Core.Errors.{Result, ok, err}
use gechu_backend.Games.Text.{is_blank, contains, strip}
use gechu_backend.Games.Raw.{
  Item, not_dict, dict, get, get_or, items, RawNamed, RawWebsite, RawAlternativeName, RawGame,
}
use gechu_backend.Games.Converters.{none_error, or_blank}

abbrev pub with_id : Option ℕ → List ℕ → List ℕ
with_id none rest = rest
with_id (some zero) rest = rest
with_id (some (suc n)) rest = suc n ∷ rest

-- The objects of a list that have an id, which is not 0
unfoldable pub ids_of : List (Item RawNamed) → List ℕ
ids_of [] = []
ids_of (not_dict ∷ gs) = ids_of gs
ids_of (dict g ∷ gs) = with_id g.id (ids_of gs)

unfoldable pub extract_genre_igdb_ids : RawGame → List ℕ
extract_genre_igdb_ids raw = ids_of (items raw.genres)

unfoldable pub extract_keyword_igdb_ids : RawGame → List ℕ
extract_keyword_igdb_ids raw = ids_of (items raw.keywords)

pub record PlatformEntry : Type 0 where
  pub platform_rawg_id : ℕ
  pub requirements_minimum : String
  pub requirements_recommended : String

abbrev pub platform_entry : ℕ → PlatformEntry
platform_entry id = record {
  platform_rawg_id = id;
  requirements_minimum = "";
  requirements_recommended = "";
}

unfoldable pub extract_platform_entries : RawGame → List PlatformEntry
extract_platform_entries raw = map platform_entry (ids_of (items raw.platforms))

-- The name, if there is one, or what the rest of the list gives
abbrev pub stripped_or : Option String → Result (Option String) → Result (Option String)
stripped_or none rest = err none_error
stripped_or (some name) rest = if is_blank (strip name) then rest else ok (some (strip name))

module _ (lower : String → String) where
  -- A comment that says Korean and is no abbreviation
  unfoldable pub is_korean : RawAlternativeName → Bool
  is_korean alt =
      let comment = lower (or_blank (get alt.comment)) in
      if contains comment "abbreviation"
      then false
      else contains comment "korean" || contains comment "한국"

  unfoldable pub korean_among : List (Item RawAlternativeName) → Result (Option String)
  korean_among [] = ok none
  korean_among (not_dict ∷ alts) = korean_among alts
  korean_among (dict alt ∷ alts) =
      let rest = korean_among alts in
      if is_korean alt then stripped_or (get_or "" alt.name) rest else rest

  unfoldable pub extract_korean_from_alt_names : RawGame → Result (Option String)
  extract_korean_from_alt_names raw = korean_among (items raw.alternative_names)

abbrev pub igdb_store_url_patterns : List (String × String)
igdb_store_url_patterns =
    ("store.steampowered.com", "steam")
    ∷ ("epicgames.com", "epic-games")
    ∷ ("gog.com", "gog")
    ∷ ("nintendo.com/store", "nintendo-eshop")
    ∷ ("store.playstation.com", "playstation-store")
    ∷ ("xbox.com", "xbox-store")
    ∷ []

pub record StoreEntry : Type 0 where
  pub store_slug : String
  pub url : String

-- The loop over the patterns, up to its `break`
unfoldable pub matching_entries : String → List (String × String) → List StoreEntry
matching_entries url [] = []
matching_entries url ((pattern', slug) ∷ patterns) =
    if contains url pattern'
    then record { store_slug = slug; url = url } ∷ []
    else matching_entries url patterns

unfoldable pub site_entries : Option String → List StoreEntry
site_entries none = []
site_entries (some url) = if is_blank url then [] else matching_entries url igdb_store_url_patterns

unfoldable pub store_entries : List (Item RawWebsite) → List StoreEntry
store_entries [] = []
store_entries (not_dict ∷ sites) = store_entries sites
store_entries (dict site ∷ sites) = site_entries (get_or "" site.url) ++ store_entries sites

unfoldable pub extract_store_entries : RawGame → List StoreEntry
extract_store_entries raw = store_entries (items raw.websites)
