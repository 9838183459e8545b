-- ===== src/Games/Converters.antt =====
-- apps/games/igdb/converters.py: the answers of IGDB as rows for the tables.
pub mod Game
pub mod Relations
pub mod Media
use gechu_backend.Base.{
  ℕ, zero, suc, ◌+◌, ◌-◌, ◌*◌, ◌/◌, ◌^◌, ◌≤◌, Bool, true, false, not, ◌&&◌, ◌||◌, Option, none,
  some, String, List, [], ◌∷◌, ◌++◌, map, any, leb, ltb, ◌==◌, if◌then◌else◌,
}
use gechu_backend.Base.Int.{ℤ, pos, negsuc, ltb_ℤ}
use gechu_backend.Core.Errors.{Error, other, Result, ok, err}
use gechu_backend.Interactions.Decimal.{Decimal}
use gechu_backend.Games.Text.{is_blank, clip, contains, strip, str, ◌+++◌}
use gechu_backend.Games.Raw.{
  Field, missing, null, value, Item, not_dict, dict, get, get_or, items, RawImage, RawVideo,
  RawNamed, RawAgeRating, RawWebsite, RawAlternativeName, RawGame,
}

infixl 10 ◌>>=◌
abbrev pub ◌>>=◌ : {A B : Type 0} → Result A → (A → Result B) → Result B
ok a >>= f = f a
err e >>= f = err e

-- What Python raises on a missing key, and on a method or slice of `None`.
abbrev pub key_error : Error
key_error = other "KeyError"

abbrev pub none_error : Error
none_error = other "NoneType"

-- `raw[key]`
abbrev pub required : {A : Type 0} → Option A → Result A
required none = err key_error
required (some a) = ok a

abbrev pub not_none : {A : Type 0} → Option A → Result A
not_none none = err none_error
not_none (some a) = ok a

-- `a or b` on texts that may be `None`, where `b` stands for both kinds of nothing
abbrev pub text_or : Option String → Option String → Option String
text_or none t = t
text_or (some s) t = if is_blank s then t else some s

-- `s or ""`
abbrev pub or_blank : Option String → String
or_blank none = ""
or_blank (some s) = s

-- `n or 0`
abbrev pub or_zero : Option ℕ → ℕ
or_zero none = 0
or_zero (some n) = n

-- `str(s)`
abbrev pub text_of : Option String → String
text_of none = "None"
text_of (some s) = s

-- client.py
unfoldable pub get_image_url : String → String → String
get_image_url image_id size =
    "https://images.igdb.com/igdb/image/upload" +++ "/t_" +++ size +++ "/" +++ image_id +++ ".jpg"

-- The day, counted from 1970-01-01, of a number of seconds; datetime holds the years 1 to 9999.
unfoldable pub day_of : ℤ → ℤ
day_of (pos n) = pos (n / 86400)
day_of (negsuc n) = negsuc (n / 86400)

unfoldable pub in_calendar : ℤ → Option ℤ
in_calendar day = if ltb_ℤ day (negsuc 719161) || ltb_ℤ (pos 2932896) day then none else some day

unfoldable pub timestamp_to_date : Option ℤ → Option ℤ
timestamp_to_date none = none
timestamp_to_date (some (pos zero)) = none
timestamp_to_date (some (pos (suc n))) = in_calendar (day_of (pos (suc n)))
timestamp_to_date (some (negsuc n)) = in_calendar (day_of (negsuc n))

-- Genre and Tag rows
pub record Named : Type 0 where
  pub rawg_id : ℕ
  pub name : String
  pub slug : String

-- `raw.get(key, "")[:50]`
unfoldable pub clipped : Field String → Result String
clipped f = not_none (get_or "" f) >>= λ s. ok (clip 50 s)

unfoldable pub convert_genre : RawNamed → Result Named
convert_genre raw = required raw.id >>= λ id. clipped raw.name >>= λ name.
    clipped raw.slug >>= λ slug. ok (record { rawg_id = id; name = name; slug = slug })

unfoldable pub convert_tag : RawNamed → Result Named
convert_tag raw = required raw.id >>= λ id. clipped raw.name >>= λ name.
    clipped raw.slug >>= λ slug. ok (record { rawg_id = id; name = name; slug = slug })

pub record Platform : Type 0 where
  pub rawg_id : ℕ
  pub name : String
  pub slug : String
  pub icon_url : Option String

abbrev pub dict_of : {A : Type 0} → Option (Item A) → Option A
dict_of none = none
dict_of (some not_dict) = none
dict_of (some (dict a)) = some a

abbrev pub image_id_of : Option RawImage → Option String
image_id_of none = none
image_id_of (some i) = get i.image_id

-- The url of an image whose id is there and not empty
unfoldable pub url_of : Option String → String → Option String
url_of none size = none
url_of (some image_id) size = if is_blank image_id then none else some (get_image_url image_id size)

abbrev pub clip_url : Option String → Option String
clip_url none = none
clip_url (some url) = some (clip 255 url)

unfoldable pub convert_platform : RawNamed → Result Platform
convert_platform raw =
    let icon_url = url_of (image_id_of (dict_of (get raw.platform_logo))) "thumb" in
    required raw.id >>= λ id. clipped raw.name >>= λ name. clipped raw.slug >>= λ slug.
    ok (record { rawg_id = id; name = name; slug = slug; icon_url = clip_url icon_url })

-- `_IGDB_ESRB_RATING_MAP.get(rating_category)`
unfoldable pub igdb_esrb_rating_map : Option ℕ → Option (String × ℕ)
igdb_esrb_rating_map none = none
igdb_esrb_rating_map (some n) =
    if n == 1
    then some ("rating_pending", 0)
    else if n == 2
    then some ("everyone", 0)
    else if n == 3
    then some ("everyone", 0)
    else if n == 4
    then some ("everyone_10_plus", 10)
    else if n == 5
    then some ("teen", 13)
    else if n == 6
    then some ("mature", 17)
    else if n == 7
    then some ("adults_only", 18)
    else none

abbrev pub is_number : ℕ → Option ℕ → Bool
is_number n none = false
is_number n (some m) = m == n

abbrev pub found_or : {A : Type 0} → Option A → A → A
found_or none rest = rest
found_or (some a) rest = a

unfoldable pub parse_esrb : List (Item RawAgeRating) → String × ℕ
parse_esrb [] = ("unknown", 0)
parse_esrb (not_dict ∷ ratings) = parse_esrb ratings
parse_esrb (dict r ∷ ratings) =
    let rest = parse_esrb ratings in
    if is_number 1 (get r.organization)
    then found_or (igdb_esrb_rating_map (get r.rating_category)) rest
    else rest

-- `Decimal(str(rating)) / Decimal("20")`, which is exact for a float, and at most 5
unfoldable pub twentieth : Decimal → Decimal
twentieth r = record {
  is_negative = r.is_negative;
  coefficient = r.coefficient * 5;
  places = r.places + 2;
}

unfoldable pub at_most_five : Decimal → Decimal
at_most_five d =
    if not d.is_negative && ltb (5 * 10 ^ d.places) d.coefficient
    then record { is_negative = false; coefficient = 500; places = 2 }
    else d

unfoldable pub parse_rating : Option Decimal → Decimal
parse_rating none = record { is_negative = false; coefficient = 0; places = 2 }
parse_rating (some r) =
    if r.coefficient == 0
    then record { is_negative = false; coefficient = 0; places = 2 }
    else at_most_five (twentieth r)

unfoldable pub parse_cover_url : Option (Item RawImage) → String
parse_cover_url cover = or_blank (url_of (image_id_of (dict_of cover)) "cover_big")

unfoldable pub parse_website : List (Item RawWebsite) → String
parse_website [] = ""
parse_website (not_dict ∷ sites) = parse_website sites
parse_website (dict site ∷ sites) =
    let rest = parse_website sites in
    if is_number 1 (get site.category) then text_of (get_or "" site.url) else rest
