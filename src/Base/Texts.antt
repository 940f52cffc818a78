-- ===== src/Base/Texts.antt =====
-- Texts by their characters.
use Prim.Native.String
use Prim.Native.Nat.{ℕ, zero, suc, ◌≤◌}
use native.Mathlib.Omega.{arith}
use mathlib.Core.Bool.{Bool, true, false}
use mathlib.Core.Option.{Option, none, some}
use text.Mathlib.Text.{◌==◌ as str_eq}

-- `len(text)`
abbrev pub text_length : String.String → ℕ
text_length String.[] = 0
text_length (String.◌∷◌ c s) = suc (text_length s)

-- `value is None or p(value)`
abbrev pub holds : (String.String → Bool) → Option String.String → Bool
holds p none = true
holds p (some s) = p s

-- `value == text`, for a value that may be None
abbrev pub same_text : Option String.String → String.String → Bool
same_text none s = false
same_text (some t) s = str_eq t s

-- `a + b`
abbrev pub append_text : String.String → String.String → String.String
append_text String.[] t = t
append_text (String.◌∷◌ c s) t = String.◌∷◌ c (append_text s t)

-- `text[:n]`
abbrev pub take_text : ℕ → String.String → String.String
take_text zero s = String.[]
take_text (suc n) String.[] = String.[]
take_text (suc n) (String.◌∷◌ c s) = String.◌∷◌ c (take_text n s)

pub length-take_text : (n : ℕ) (s : String.String) → text_length (take_text n s) ≤ n
length-take_text zero s = omega arith
length-take_text (suc n) String.[] = omega arith
length-take_text (suc n) (String.◌∷◌ c s) = omega (arith, length-take_text n s)
