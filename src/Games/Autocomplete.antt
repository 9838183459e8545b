-- ===== src/Games/Autocomplete.antt =====
-- apps/games/views/autocomplete.py: the completion of a text to games, from what Redis holds.
-- `lower` is `str.lower`.
pub mod Names
pub mod Entries
pub mod View
pub mod Results
use gechu_backend.Base.{
  ℕ, zero, suc, ◌+◌, ◌*◌, Bool, true, false, not, ◌&&◌, ◌||◌, Option, none, some, String, List, [],
  ◌∷◌, ◌++◌, map, length, leb, ◌==◌, if◌then◌else◌,
}
use gechu_backend.Base.Dict.{Dict, nat_eq, lookup, insert}
use gechu_backend.Base.Sort.{sort_by, descending}
use gechu_backend.Core.Errors.{Error, other, Result, ok, err}
use gechu_backend.Games.Text.{is_blank, starts_with, strip}
use gechu_backend.Games.Raw.{Field, missing, null, value, get_or}
use gechu_backend.Games.Chosung.{get_chosung_normalized}
use gechu_backend.Games.Names.{NameHash, name_or_blank, Until, alive}

-- An object of JSON under a key `igdb:game:*`
pub record GameEntry : Type 0 where
  pub id : Option ℕ
  pub name : Field String
  pub name_ko : Field String
  pub thumbnail_img_url : Field String

-- What `json.loads` gives of a value: nothing is there, JSONDecodeError, UnicodeDecodeError, another
-- value than an object, or an object
pub data Loaded : Type 0 where
  absent unreadable undecodable no_object : Loaded
  entry : GameEntry → Loaded

-- An answer of SCAN with the values of its keys, and whether its cursor is 0
pub record ScanPage (A : Type 0) : Type 0 where
  pub rows : List A
  pub is_last : Bool

-- The answers of SCAN in their order, for the names and for the games, and the game of an id. A key
-- whose number cannot be read is `none`, and so is a hash that is not there.
pub record Redis : Type 0 where
  pub name_pages : ℕ → ScanPage (Option ℕ × Option NameHash)
  pub game_pages : ℕ → ScanPage Loaded
  pub game : ℕ → Loaded

abbrev pub max_results : ℕ
max_results = 10

abbrev pub max_scan_iterations : ℕ
max_scan_iterations = 50

-- A match of a name has no `name` and no `thumbnail_img_url`, which `.get(key, "")` reads as "".
pub record Match : Type 0 where
  pub priority : ℕ
  pub id : Option ℕ
  pub name : String
  pub name_ko : Option String
  pub thumbnail_img_url : Option String

pub record Suggestion : Type 0 where
  pub id : Option ℕ
  pub name : String
  pub name_ko : Option String
  pub thumbnail_img_url : Option String

abbrev pub attribute_error : Error
attribute_error = other "AttributeError"

abbrev pub ids_eq : Option ℕ → Option ℕ → Bool
ids_eq none none = true
ids_eq (some a) (some b) = a == b
ids_eq _ _ = false

abbrev pub has_id : Option ℕ → List (Option ℕ) → Bool
has_id id [] = false
has_id id (i ∷ ids) = ids_eq id i || has_id id ids
