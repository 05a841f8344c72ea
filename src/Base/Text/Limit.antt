-- ===== src/Base/Text/Limit.antt =====
-- `limitString` of internal/checks/checks.go and internal/actions/actions.go. A text stands for the
-- runes of a Go string: a byte that belongs to none is read as the rune U+FFFD.
use Prim.Native.Nat.{ℕ, zero, suc, ◌-◌}
use Prim.Native.Char.{len_utf8}
use Prim.Native.String.{String, [], ◌∷◌, len}
use mathlib.Core.Path.{◌≡◌, refl}
use mathlib.Core.Bool.{◌||◌}
use rpi_procmon.Base.Tests.{leb, if◌then◌else◌}
use rpi_procmon.Base.Ints.{ℤ, pos, pos_part, leb_ℤ}

-- `n` bytes of a rune that is cut.
broken : ℕ → String
broken zero = []
broken (suc n) = ◌∷◌ "�" (broken n)

-- `value[:max]`.
first_bytes : ℕ → String → String
unfolding broken
first_bytes max [] = []
first_bytes max (c ∷ s) =
    let rest = first_bytes (max - len_utf8 c) s in
    if leb (len_utf8 c) max then c ∷ rest else broken max

-- `limitString`.
unfoldable pub limit_string : String → ℤ → String
unfolding first_bytes
limit_string value max =
    if leb_ℤ max (pos 0) || leb_ℤ (pos (len value)) max
    then value
    else first_bytes (pos_part max) value

limit_runs : limit_string "aλb" (pos 2) ≡ "a�"
unfolding limit_string
limit_runs = refl

limit_short : limit_string "aλb" (pos 4) ≡ "aλb"
unfolding limit_string
limit_short = refl
