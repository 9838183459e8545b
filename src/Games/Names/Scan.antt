-- ===== src/Games/Names/Scan.antt =====
-- The searches in texts that the edition suffixes need: Python's regular expressions, `split` and
-- `replace`, for the patterns that apps/games/wikidata uses.
use Prim.Native.Char.{Char, code}
use Prim.Native.String.{String, [], ◌∷◌}
use mathlib.Core.List as Lists
use gechu_backend.Base.{
  ℕ, zero, suc, ◌-◌, Bool, true, not, ◌&&◌, Option, none, some, leb, ◌==◌, if◌then◌else◌,
}
use gechu_backend.Games.Text.{is_blank, clip, skip, len, starts_with, is_space, ◌+++◌}

abbrev cons_to : Char → Option String → Option String
cons_to c none = none
cons_to c (some s) = some (c ∷ s)

abbrev or_else : Option String → Option String → Option String
or_else none t = t
or_else (some s) t = some s

abbrev not_empty : Option String → Option String
not_empty none = none
not_empty (some s) = if is_blank s then none else some s

-- `.*$`: up to the end of the text, or up to a newline that ends it
unfoldable pub line_end : String → Option String
line_end [] = some []
line_end (c ∷ s) =
    let more = cons_to c (line_end s) in
    if code c == 10 then (if is_blank s then some [] else none) else more

-- `re.search(r" - (.+)$", s)`, its group
unfoldable pub dash_suffix : String → Option String
unfolding line_end
dash_suffix [] = none
dash_suffix (c ∷ s) =
    let later = dash_suffix s in
    if starts_with (c ∷ s) " - " then or_else (not_empty (line_end (skip 2 s))) later else later

-- `s.split(sep)[-1]`, if `sep`, of two code points, is in `s`
unfoldable pub after_last : String → String → Option String
after_last sep [] = none
after_last sep (c ∷ s) =
    or_else (after_last sep s) (if starts_with (c ∷ s) sep then some (skip 1 s) else none)

abbrev close_word : String → Lists.List String → Lists.List String
close_word word more = if is_blank word then more else Lists.◌∷◌ word more

-- `s.split()`, with the word that is being read
unfoldable pub words_from : String → String → Lists.List String
words_from word [] = close_word word Lists.[]
words_from word (c ∷ s) =
    let closed = close_word word (words_from [] s) in
    let longer = words_from (word +++ (c ∷ [])) s in if is_space c then closed else longer

unfoldable pub words : String → Lists.List String
unfolding words_from
words s = words_from [] s

-- `s.replace(pattern, "")`, with the code points of a match that are still to skip
unfoldable pub remove_from : String → ℕ → String → String
remove_from gone k [] = []
remove_from gone (suc k) (c ∷ s) = remove_from gone k s
remove_from gone zero (c ∷ s) =
    let matched = remove_from gone (len gone - 1) s in
    let kept = c ∷ remove_from gone 0 s in if starts_with (c ∷ s) gone then matched else kept

unfoldable pub remove_all : String → String → String
unfolding remove_from
remove_all gone s = remove_from gone 0 s

-- `s.endswith(suffix)`
unfoldable pub ends_with : String → String → Bool
ends_with s suffix = leb (len suffix) (len s) && starts_with (skip (len s - len suffix) s) suffix

-- `s[:-len(suffix)]`
unfoldable pub cut : String → String → String
cut suffix s = clip (len s - len suffix) s

abbrev is_digit : Char → Bool
is_digit c = leb b'0' (code c) && leb (code c) b'9'

unfoldable pub all_digits : String → Bool
all_digits [] = true
all_digits (c ∷ s) = is_digit c && all_digits s

-- `re.sub(r"--\d+$", "", slug)`, for a slug of ASCII with no newline
unfoldable pub remove_number : String → String
remove_number [] = []
remove_number (c ∷ s) =
    let kept = c ∷ remove_number s in
    if starts_with (c ∷ s) "--" && not (is_blank (skip 1 s)) && all_digits (skip 1 s)
    then []
    else kept
