-- ===== src/Games/Converters/Media.antt =====
-- The screenshots and trailers of apps/games/igdb/converters.py
use gechu_backend.Base.{ℕ, Option, none, some, String, if◌then◌else◌}
use gechu_backend.Games.Text.{is_blank, ◌+++◌}
use gechu_backend.Games.Raw.{get, get_or, RawImage, RawVideo}
use gechu_backend.Games.Converters.{or_blank, url_of, text_or}

pub data MediaType : Type 0 where
  screenshot trailer : MediaType

-- The columns of a GameMedia row
pub record GameMedia : Type 0 where
  pub game_id : ℕ
  pub rawg_id : Option ℕ
  pub kind : MediaType
  pub media_url : String
  pub video_url_480 : Option String
  pub video_url_max : Option String
  pub video_name : Option String

unfoldable pub convert_screenshot : ℕ → RawImage → GameMedia
convert_screenshot game_igdb_id raw = record {
  game_id = game_igdb_id;
  rawg_id = get_or 0 raw.id;
  kind = screenshot;
  media_url = or_blank (url_of (get_or "" raw.image_id) "screenshot_big");
  video_url_480 = none;
  video_url_max = none;
  video_name = none;
}

-- An f-string about a video, if there is one
unfoldable pub video_url : String → Option String → String → Option String
video_url before none after = none
video_url before (some video_id) after =
    if is_blank video_id then none else some (before +++ video_id +++ after)

unfoldable pub convert_trailer : ℕ → RawVideo → GameMedia
convert_trailer game_igdb_id raw =
    let video_id = get_or "" raw.video_id in
    record {
      game_id = game_igdb_id;
      rawg_id = get_or 0 raw.id;
      kind = trailer;
      media_url = or_blank (video_url "https://img.youtube.com/vi/" video_id "/hqdefault.jpg");
      video_url_480 = video_url "https://www.youtube.com/embed/" video_id "";
      video_url_max = video_url "https://www.youtube.com/watch?v=" video_id "";
      video_name = text_or (get raw.name) none;
    }
