-- ===== src/Base/Keys.antt =====
-- Texts as the keys of a dict.
use text.Mathlib.TextEquality.{path_by_compare}
use Prim.Native.Nat.{Ordering}
use Prim.Native.String as Text
use gechu_backend.Base.{◌≡◌, refl, subst, ◌↔◌, true, String, string_eq, string_eq_refl, is_same}
use gechu_backend.Base.Dict.{Eq}

same_is_eq : (o : Ordering) → is_same o ≡ true → o ≡ Ordering.eq
same_is_eq Ordering.lt h = cc
same_is_eq Ordering.eq h = refl
same_is_eq Ordering.gt h = cc

pub string_eq_iff : (s t : String) → (string_eq s t ≡ true) ↔ (s ≡ t)
string_eq_iff s t = (
  λ h. path_by_compare s t (same_is_eq (Text.compare s t) h),
  λ e. subst (λ u. string_eq s u ≡ true) e (string_eq_refl s),
)

instance abbrev pub text_key : Eq String
text_key = record { beq = string_eq; beq_iff = string_eq_iff }
