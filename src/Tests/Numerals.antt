-- ===== src/Tests/Numerals.antt =====
-- A writing of the numbers as texts and its reading, for runs that need both.
use Prim.Native.Nat.{ℕ, zero, suc}
use Prim.Native.String.{String, ◌++◌, len}
use mathlib.Core.Path.{◌≡◌, refl, ap, ◌∙◌}
use mathlib.Core.Option.{Option, some}
use native.Mathlib.Omega.{arith}
use text.Mathlib.TextPositions.{len-append}

unfoldable pub str_of : ℕ → String
str_of zero = ""
str_of (suc n) = "1" ++ str_of n

unfoldable pub int_of : String → Option ℕ
int_of s = some (len s)

len-str_of : (n : ℕ) → len (str_of n) ≡ n
unfolding str_of
len-str_of zero = refl
len-str_of (suc n) = len-append "1" (str_of n) ∙ omega (arith, len-str_of n)

pub int_of-str_of : (n : ℕ) → int_of (str_of n) ≡ some n
unfolding int_of
int_of-str_of n = ap (λ m. some m) (len-str_of n)
