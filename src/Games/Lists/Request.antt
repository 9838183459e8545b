-- ===== src/Games/Lists/Request.antt =====
-- The query of the list of games: GameListQuerySerializer of apps/games/serializers/game_list.py.
-- `parse_int` is Python's `int` of a text.
use Prim.Native.Char.{code}
use Prim.Native.String.{String, [], ◌∷◌}
use mathlib.Core.List as Lists
use gechu_backend.Base.{◌==◌, if◌then◌else◌}
use gechu_backend.Games.Text.{is_blank, ◌+++◌}

-- `[x for x in value.split(",") if x]`, with the part that is being read
abbrev close_part : String → Lists.List String → Lists.List String
close_part part more = if is_blank part then more else Lists.◌∷◌ part more

unfoldable pub parts_from : String → String → Lists.List String
parts_from part [] = close_part part Lists.[]
parts_from part (c ∷ s) =
    let closed = close_part part (parts_from [] s) in
    let longer = parts_from (part +++ (c ∷ [])) s in if code c == b',' then closed else longer

unfoldable pub parts_of : String → Lists.List String
unfolding parts_from
parts_of value = parts_from [] value
