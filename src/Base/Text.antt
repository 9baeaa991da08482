-- ===== src/Base/Text.antt =====
-- Text: `String` and the parts of it that the source takes by prefix, suffix and position.
pub use Prim.Native.String.{String}
use Prim.Native.String
pub use text.Mathlib.Text.{◌==◌, starts_with}
pub use text.Mathlib.TextEquality.{eq_iff}
pub use text.Mathlib.TextPositions.{eq_refl}
use Prim.Native.Nat.{ℕ, zero, suc}
use mathlib.Core.Path.{◌≡◌, subst}
use mathlib.Core.Logic.{inl, inr}
use native.Mathlib.Omega.{arith}
use neo_nect_desktop.Base.Tests.{Bool-cases}
use mathlib.Core.Bool.{Bool, true, false, ◌||◌}

-- isEmpty()
abbrev pub is_empty : String → Bool
is_empty String.[] = true
is_empty (String.◌∷◌ c s) = false

-- endsWith(t): some suffix of the text is t.
unfoldable pub ends_with : String → String → Bool
ends_with String.[] t = is_empty t
ends_with (String.◌∷◌ c s) t = (String.◌∷◌ c s == t) || ends_with s t

-- contains(t): t starts somewhere in the text.
unfoldable pub contains_text : String → String → Bool
contains_text String.[] t = is_empty t
contains_text (String.◌∷◌ c s) t = starts_with (String.◌∷◌ c s) t || contains_text s t

-- left(n): the first n characters.
unfoldable pub left : ℕ → String → String
left zero s = ""
left (suc n) String.[] = ""
left (suc n) (String.◌∷◌ c s) = String.◌∷◌ c (left n s)

-- mid(n): all but the first n characters.
unfoldable pub mid : ℕ → String → String
mid zero s = s
mid (suc n) String.[] = ""
mid (suc n) (String.◌∷◌ c s) = mid n s

-- The texts one after the other.
infixr 65 ◌<>◌
abbrev pub ◌<>◌ : String → String → String
s <> t = String.◌++◌ s t

pub ==-sym : (a b : String) → (a == b) ≡ false → (b == a) ≡ false
==-sym a b h = elim (Bool-cases (b == a)) [
  | inl e ↦
      let same : b ≡ a = (eq_iff b a).0 e in
      absurd (ground (arith, h, eq_refl a, subst (λ c. (a == c) ≡ false) same h))
  | inr e ↦ e
]
