-- ===== src/Accounts/Adult/Year.antt =====
-- A year of birth as BBaton gives it: `int(s)` of a text that `str.isdigit` holds of, for texts of
-- ASCII.
use Prim.Native.Char.{Char, code}
use Prim.Native.String.{String, [], ◌∷◌}
use gechu_backend.Base.{ℕ, ◌+◌, ◌-◌, ◌*◌, Bool, ◌&&◌, Option, none, some, leb, if◌then◌else◌}

abbrev is_digit : Char → Bool
is_digit c = leb b'0' (code c) && leb (code c) b'9'

unfoldable pub number_from : ℕ → String → Option ℕ
number_from n [] = some n
number_from n (c ∷ s) =
    let rest = number_from (10 * n + (code c - b'0')) s in if is_digit c then rest else none

unfoldable pub year_of : String → Option ℕ
unfolding number_from
year_of [] = none
year_of (c ∷ s) = number_from 0 (c ∷ s)
