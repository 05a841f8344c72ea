-- ===== src/Base/Text/Number.antt =====
-- Go's `strconv.Atoi`.
use Prim.Native.Nat.{ℕ, zero, suc, ◌+◌, ◌-◌, ◌*◌}
use Prim.Native.Char.{code}
use Prim.Native.String.{String, [], ◌∷◌}
use mathlib.Core.Path.{◌≡◌, refl}
use mathlib.Core.Bool.{◌&&◌}
use mathlib.Core.Option.{Option, none, some}
use rpi_procmon.Base.Tests.{leb, eqb, if◌then◌else◌}
use rpi_procmon.Base.Ints.{ℤ, pos, negsuc, max_int}

-- The number that the digits spell, behind `n`.
digits_value : ℕ → String → Option ℕ
digits_value n [] = some n
digits_value n (c ∷ s) =
    let rest = digits_value (n * 10 + (code c - b'0')) s in
    if leb b'0' (code c) && leb (code c) b'9' then rest else none

-- One digit at least.
number : String → Option ℕ
unfolding digits_value
number [] = none
number (c ∷ s) = digits_value 0 (c ∷ s)

-- The range of `int`.
positive : Option ℕ → Option ℤ
positive none = none
positive (some n) = if leb n max_int then some (pos n) else none

negative : Option ℕ → Option ℤ
negative none = none
negative (some zero) = some (pos 0)
negative (some (suc n)) = if leb n max_int then some (negsuc n) else none

-- `strconv.Atoi`; `none` is its error.
unfoldable pub atoi : String → Option ℤ
unfolding number positive negative
atoi [] = none
atoi (c ∷ s) =
    if eqb (code c) b'-'
    then negative (number s)
    else if eqb (code c) b'+'
    then positive (number s)
    else positive (number (c ∷ s))

atoi_runs : atoi "-042" ≡ some (negsuc 41)
unfolding atoi
atoi_runs = refl

atoi_refuses : atoi "9223372036854775808" ≡ none
unfolding atoi
atoi_refuses = refl
