-- ===== src/Prelude/Text.antt =====
-- Texts as lists of bytes: std::string and absl::string_view where the program walks through them.
use Prim.Native.Nat.{ℕ}
use Prim.Native.Char.{code}
use Prim.Native.String.{String}
use mathlib.Core.Path.{◌≡◌, refl}
use mathlib.Core.Bool.{Bool, true, false, ◌&&◌}
use mathlib.Core.List.{List, [], ◌∷◌}
use native.Mathlib.Omega.{arith}
use vpn_libraries.Prelude.Tests.{◌==◌}

abbrev pub Text : Type 0
Text = List ℕ

-- The bytes of an ASCII literal.
abbrev pub codes : String → Text
codes String.[] = []
codes (String.◌∷◌ c s) = code c ∷ codes s

unfoldable pub eqb_text : Text → Text → Bool
eqb_text [] [] = true
eqb_text (a ∷ s) (b ∷ t) = a == b && eqb_text s t
eqb_text _ _ = false

pub eqb_text_refl : (s : Text) → eqb_text s s ≡ true
unfolding eqb_text
eqb_text_refl [] = refl
eqb_text_refl (a ∷ s) = ground (arith, eqb_text_refl s)

abbrev pub is_empty : Text → Bool
is_empty [] = true
is_empty (c ∷ s) = false

abbrev pub string_is_empty : String → Bool
string_is_empty String.[] = true
string_is_empty (String.◌∷◌ c s) = false
