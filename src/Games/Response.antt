-- ===== src/Games/Response.antt =====
-- apps/games/igdb/response_builder.py: the items of the API's answers. The text that resolves a
-- Korean name comes with the state of the names.
use gechu_backend.Base.{
  ℕ, zero, suc, Bool, true, false, ◌||◌, Option, none, some, String, List, [], ◌∷◌, ◌++◌,
  if◌then◌else◌,
}
use gechu_backend.Base.Int.{ℤ}
use gechu_backend.Core.Errors.{Result, ok, err}
use gechu_backend.Interactions.Decimal.{Decimal}
use gechu_backend.Games.Text.{is_blank}
use gechu_backend.Games.Raw.{
  Field, Item, not_dict, dict, get, get_or, items, RawImage, RawVideo, RawNamed, RawGame,
}
use gechu_backend.Games.Converters.{
  required, or_blank, or_zero, text_or, is_number, timestamp_to_date, parse_esrb, parse_rating,
  parse_cover_url, parse_website,
}
use gechu_backend.Games.Converters.Media.{MediaType, GameMedia, convert_screenshot, convert_trailer}
use gechu_backend.Games.Converters.Relations.{StoreEntry, extract_store_entries}
use gechu_backend.Games.Names.{Names}
use gechu_backend.Games.Names.Editions.{Keywords}
use gechu_backend.Games.Names.Resolve.{resolve_name_ko}

pub record NamedItem : Type 0 where
  pub id : ℕ
  pub name : Option String
  pub slug : Option String

abbrev pub named_item : Option ℕ → RawNamed → List NamedItem → List NamedItem
named_item none g rest = rest
named_item (some zero) g rest = rest
named_item (some (suc n)) g rest =
    record { id = suc n; name = get_or "" g.name; slug = get_or "" g.slug } ∷ rest

-- The objects of a list that have an id. Only the genres of a detail are shown with their slugs.
unfoldable pub named_items : List (Item RawNamed) → List NamedItem
named_items [] = []
named_items (not_dict ∷ gs) = named_items gs
named_items (dict g ∷ gs) = named_item g.id g (named_items gs)

pub record GameListItem : Type 0 where
  pub id : ℕ
  pub slug : Option String
  pub name : Option String
  pub name_ko : String
  pub released : Option ℤ
  pub thumbnail_img_url : String
  pub rawg_rating : Decimal
  pub rawg_ratings_count : ℕ
  pub genres : List NamedItem
  pub platforms : List NamedItem
  pub tags : List NamedItem
  pub esrb_rating : String
  pub age_rating_min : ℕ

pub record MediaItem : Type 0 where
  pub kind : MediaType
  pub media_url : String
  pub video_url_480 : Option String
  pub video_url_max : Option String

pub record GameDetail : Type 0 where
  pub id : ℕ
  pub slug : Option String
  pub name : Option String
  pub name_ko : String
  pub description : String
  pub released : Option ℤ
  pub tba : Bool
  pub thumbnail_img_url : String
  pub website : String
  pub rawg_rating : Decimal
  pub rawg_ratings_count : ℕ
  pub rawg_added : ℕ
  pub esrb_rating : String
  pub age_rating_min : ℕ
  pub genres : List NamedItem
  pub platforms : List NamedItem
  pub tags : List NamedItem
  pub media : List MediaItem
  pub stores : List StoreEntry

abbrev pub is_there : Option String → Bool
is_there none = false
is_there (some s) = if is_blank s then false else true

abbrev pub media_item : GameMedia → MediaItem
media_item m = record {
  kind = m.kind;
  media_url = m.media_url;
  video_url_480 = m.video_url_480;
  video_url_max = m.video_url_max;
}

unfoldable pub screenshot_items : ℕ → List (Item RawImage) → List MediaItem
screenshot_items id [] = []
screenshot_items id (not_dict ∷ rest) = screenshot_items id rest
screenshot_items id (dict ss ∷ rest) =
    if is_there (get ss.image_id)
    then media_item (convert_screenshot id ss) ∷ screenshot_items id rest
    else screenshot_items id rest

unfoldable pub trailer_items : ℕ → List (Item RawVideo) → List MediaItem
trailer_items id [] = []
trailer_items id (not_dict ∷ rest) = trailer_items id rest
trailer_items id (dict vid ∷ rest) =
    if is_there (get vid.video_id)
    then media_item (convert_trailer id vid) ∷ trailer_items id rest
    else trailer_items id rest

-- `name_ko or raw.get("name", "")`
abbrev pub shown_name : String → Field String → Option String
shown_name name_ko name = if is_blank name_ko then get_or "" name else some name_ko

unfoldable pub list_item : ℕ → String → RawGame → GameListItem
list_item id name_ko raw = record {
  id = id;
  slug = get_or "" raw.slug;
  name = shown_name name_ko raw.name;
  name_ko = name_ko;
  released = timestamp_to_date (get raw.first_release_date);
  thumbnail_img_url = parse_cover_url (get raw.cover);
  rawg_rating = parse_rating (get raw.rating);
  rawg_ratings_count = or_zero (get raw.rating_count);
  genres = named_items (items raw.genres);
  platforms = named_items (items raw.platforms);
  tags = named_items (items raw.keywords);
  esrb_rating = (parse_esrb (items raw.age_ratings)).0;
  age_rating_min = (parse_esrb (items raw.age_ratings)).1;
}

unfoldable pub detail_item : ℕ → String → RawGame → GameDetail
detail_item id name_ko raw = record {
  id = id;
  slug = get_or "" raw.slug;
  name = shown_name name_ko raw.name;
  name_ko = name_ko;
  description = or_blank (text_or (get raw.summary) (get raw.storyline));
  released = timestamp_to_date (get raw.first_release_date);
  tba = is_number 7 (get raw.status) || is_number 8 (get raw.status);
  thumbnail_img_url = parse_cover_url (get raw.cover);
  website = parse_website (items raw.websites);
  rawg_rating = parse_rating (get raw.rating);
  rawg_ratings_count = or_zero (get raw.rating_count);
  rawg_added = or_zero (get raw.follows);
  esrb_rating = (parse_esrb (items raw.age_ratings)).0;
  age_rating_min = (parse_esrb (items raw.age_ratings)).1;
  genres = named_items (items raw.genres);
  platforms = named_items (items raw.platforms);
  tags = named_items (items raw.keywords);
  media = screenshot_items id (items raw.screenshots) ++ trailer_items id (items raw.videos);
  stores = extract_store_entries raw;
}

-- What the builders need from outside: `str.lower`, the keywords, and the search of a parent game,
-- which the code keeps in an LRU cache
pub record Outside : Type 0 where
  pub lower : String → String
  pub keywords : Keywords
  pub search : String → Result (List RawGame)

module _ (out : Outside) (now : ℕ) where
  abbrev pub built : {B : Type 0} → (String → B) → Result String × Names → Result B × Names
  built f (ok name_ko, s) = (ok (f name_ko), s)
  built f (err e, s) = (err e, s)

  abbrev pub build_with :
      {B : Type 0} → (ℕ → String → RawGame → B) → Result ℕ → RawGame → Names → Result B × Names
  build_with item (err e) raw s = (err e, s)
  build_with item (ok id) raw s =
      built (λ name_ko. item id name_ko raw)
        (resolve_name_ko out.lower out.keywords out.search now id raw s)

  unfoldable pub build_game_list_item : RawGame → Names → Result GameListItem × Names
  build_game_list_item raw s = build_with list_item (required raw.id) raw s

  unfoldable pub build_game_detail : RawGame → Names → Result GameDetail × Names
  build_game_detail raw s = build_with detail_item (required raw.id) raw s

pub record SimilarGameItem : Type 0 where
  pub id : ℕ
  pub name : Option String
  pub name_ko : String
  pub slug : Option String
  pub thumbnail_img_url : String
  pub rawg_rating : Decimal
  pub similarity_score : ℕ

-- From a detail, whose keys are all there
unfoldable pub build_similar_game_item : GameDetail → ℕ → SimilarGameItem
build_similar_game_item raw similarity_score = record {
  id = raw.id;
  name = if is_blank raw.name_ko then raw.name else some raw.name_ko;
  name_ko = raw.name_ko;
  slug = raw.slug;
  thumbnail_img_url = raw.thumbnail_img_url;
  rawg_rating = raw.rawg_rating;
  similarity_score = similarity_score;
}
