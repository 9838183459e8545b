-- ===== src/Games/Raw.antt =====
-- The answers of IGDB before the code reads them: a value of a JSON object may be missing, `null`
-- or there, and an item of a list may be something else than an object.
use gechu_backend.Base.{ℕ, String, Option, none, some, List, []}
use gechu_backend.Base.Int.{ℤ}
use gechu_backend.Interactions.Decimal.{Decimal}

pub data Field (A : Type 0) : Type 0 where
  missing null : Field A
  value : A → Field A

-- `isinstance(item, dict)`
pub data Item (A : Type 0) : Type 0 where
  not_dict : Item A
  dict : A → Item A

module _ {A : Type 0} where
  -- `raw.get(key)`
  abbrev pub get : Field A → Option A
  get missing = none
  get null = none
  get (value a) = some a

  -- `raw.get(key, default)`: the default stands for a missing key, not for `null`.
  abbrev pub get_or : A → Field A → Option A
  get_or d missing = some d
  get_or d null = none
  get_or d (value a) = some a

  -- `raw.get(key) or []`
  abbrev pub items : Field (List A) → List A
  items missing = []
  items null = []
  items (value xs) = xs

pub record RawImage : Type 0 where
  pub id : Field ℕ
  pub image_id : Field String

pub record RawVideo : Type 0 where
  pub id : Field ℕ
  pub video_id : Field String
  pub name : Field String

-- An item of /genres, /platforms or /keywords; an id is a number where it is there.
pub record RawNamed : Type 0 where
  pub id : Option ℕ
  pub name : Field String
  pub slug : Field String
  pub platform_logo : Field (Item RawImage)

pub record RawAgeRating : Type 0 where
  pub organization : Field ℕ
  pub rating_category : Field ℕ

pub record RawWebsite : Type 0 where
  pub category : Field ℕ
  pub url : Field String

pub record RawAlternativeName : Type 0 where
  pub name : Field String
  pub comment : Field String

-- An item of /games. A rating is a decimal, as `str` prints the float.
pub record RawGame : Type 0 where
  pub id : Option ℕ
  pub name : Field String
  pub slug : Field String
  pub summary : Field String
  pub storyline : Field String
  pub alternative_names : Field (List (Item RawAlternativeName))
  pub parent_game : Field ℕ
  pub first_release_date : Field ℤ
  pub status : Field ℕ
  pub cover : Field (Item RawImage)
  pub rating : Field Decimal
  pub rating_count : Field ℕ
  pub follows : Field ℕ
  pub genres : Field (List (Item RawNamed))
  pub platforms : Field (List (Item RawNamed))
  pub keywords : Field (List (Item RawNamed))
  pub age_ratings : Field (List (Item RawAgeRating))
  pub screenshots : Field (List (Item RawImage))
  pub videos : Field (List (Item RawVideo))
  pub websites : Field (List (Item RawWebsite))
  pub updated_at : Field ℕ
