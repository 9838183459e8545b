-- ===== src/Games/Converters/Game.antt =====
-- convert_game of apps/games/igdb/converters.py
use gechu_backend.Base.{ℕ, Bool, false, Option, none, some, String, if◌then◌else◌}
use gechu_backend.Base.Int.{ℤ}
use gechu_backend.Core.Errors.{Result, ok}
use gechu_backend.Interactions.Decimal.{Decimal}
use gechu_backend.Games.Text.{is_blank, str, ◌+++◌}
use gechu_backend.Games.Raw.{get, get_or, items, RawGame}
use gechu_backend.Games.Converters.{
  ◌>>=◌, required, text_or, or_zero, timestamp_to_date, parse_esrb, parse_rating, parse_cover_url,
  parse_website,
}

-- The columns of a Game row, times in seconds
pub record Game : Type 0 where
  pub rawg_id : ℕ
  pub slug : String
  pub name : Option String
  pub description : Option String
  pub released : Option ℤ
  pub tba : Bool
  pub thumbnail_img_url : String
  pub website : String
  pub rawg_rating : Decimal
  pub rawg_ratings_count : ℕ
  pub metacritic : Option ℕ
  pub rawg_added : ℕ
  pub playtime : ℕ
  pub esrb_rating : String
  pub age_rating_min : ℕ
  pub rawg_updated : Option ℕ
  pub synced_at : ℕ

-- `raw.get("slug") or f"igdb-{raw['id']}"`
unfoldable pub slug_or : Option String → ℕ → String
slug_or none id = "igdb-" +++ str id
slug_or (some s) id = if is_blank s then "igdb-" +++ str id else s

-- `a or None`
abbrev pub present : Option String → Option String
present s = text_or s none

-- A time of 0 counts as missing.
abbrev pub nonzero : Option ℕ → Option ℕ
nonzero none = none
nonzero (some ℕ.zero) = none
nonzero (some (ℕ.suc n)) = some (ℕ.suc n)

-- The rows' defaults, with the clock as an argument
unfoldable pub convert_game : ℕ → RawGame → Result Game
convert_game now raw =
    let esrb = parse_esrb (items raw.age_ratings) in
    required raw.id >>= λ id. ok (record {
      rawg_id = id;
      slug = slug_or (get raw.slug) id;
      name = get_or "" raw.name;
      description = present (text_or (get raw.summary) (get raw.storyline));
      released = timestamp_to_date (get raw.first_release_date);
      tba = false;
      thumbnail_img_url = parse_cover_url (get raw.cover);
      website = parse_website (items raw.websites);
      rawg_rating = parse_rating (get raw.rating);
      rawg_ratings_count = or_zero (get raw.rating_count);
      metacritic = none;
      rawg_added = or_zero (get raw.follows);
      playtime = 0;
      esrb_rating = esrb.0;
      age_rating_min = esrb.1;
      rawg_updated = nonzero (get raw.updated_at);
      synced_at = now;
    })
