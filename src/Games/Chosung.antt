-- ===== src/Games/Chosung.antt =====
-- apps/games/chosung.py: the initial consonants of a Korean text.
use Prim.Native.Char.{Char, code}
use Prim.Native.String.{String, [], ◌∷◌}
use gechu_backend.Base.{ℕ, zero, suc, ◌-◌, ◌/◌, Bool, ◌&&◌, leb, ◌==◌, if◌then◌else◌}
use gechu_backend.Games.Text.{is_blank}

abbrev pub chosung_list : String
chosung_list = "ㄱㄲㄴㄷㄸㄹㅁㅂㅃㅅㅆㅇㅈㅉㅊㅋㅌㅍㅎ"

-- `CHOSUNG_LIST[i]`, where `c` stands for an index past the end
unfoldable pub get_elem : String → ℕ → Char → Char
get_elem [] i c = c
get_elem (d ∷ s) zero c = d
get_elem (d ∷ s) (suc i) c = get_elem s i c

-- The syllables from "가" to "힣" stand in the order of their initial consonants, 588 of each.
abbrev pub is_syllable : Char → Bool
is_syllable c = leb 0xac00 (code c) && leb (code c) 0xd7a3

unfoldable pub initial : Char → Char
unfolding get_elem
initial c = if is_syllable c then get_elem chosung_list ((code c - 0xac00) / 588) c else c

unfoldable pub get_chosung : String → String
get_chosung [] = []
get_chosung (c ∷ s) = initial c ∷ get_chosung s

-- `.replace(" ", "")`
unfoldable pub remove_spaces : String → String
remove_spaces [] = []
remove_spaces (c ∷ s) = if code c == 32 then remove_spaces s else c ∷ remove_spaces s

unfoldable pub get_chosung_normalized : String → String
get_chosung_normalized text = if is_blank text then [] else remove_spaces (get_chosung text)
