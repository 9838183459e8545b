-- ===== src/Accounts/Ascii.antt =====
-- Texts that `secrets.compare_digest` takes.
use Prim.Native.Char.{code}
use Prim.Native.String.{String, [], ◌∷◌}
use gechu_backend.Base.{Bool, true, ◌&&◌, ltb}

unfoldable pub is_ascii : String → Bool
is_ascii [] = true
is_ascii (c ∷ s) = ltb (code c) 128 && is_ascii s
