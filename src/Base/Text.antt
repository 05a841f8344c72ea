-- ===== src/Base/Text.antt =====
-- Go's `strings` and `strconv`, as far as the program uses them.
pub mod Blank
pub mod Split
pub mod Number
pub mod Limit
use Prim.Native.Nat.{ℕ, zero, suc, ◌+◌, ◌/◌, ◌%◌}
use Prim.Native.Char.{Char, code}
use Prim.Native.String
use Prim.Native.String.{String, [], ◌∷◌, ◌++◌}
use mathlib.Core.Path.{◌≡◌, refl, ap}
use mathlib.Core.Bool.{Bool, true, false, ◌&&◌, ◌||◌}
use mathlib.Core.Logic.{inl, inr}
use mathlib.Core.List
use mathlib.Core.List.{List}
use native.Mathlib.Omega.{arith}
use text.Mathlib.Text.{◌==◌}
use rpi_procmon.Base.Tests.{ltb, leb, eqb, if◌then◌else◌, Bool-cases}
use rpi_procmon.Base.Ints.{ℤ, pos, negsuc}

-- `unicode.IsSpace`.
abbrev pub is_space : ℕ → Bool
is_space c =
    leb 9 c && leb c 13
    || eqb c 32
    || eqb c 133
    || eqb c 160
    || eqb c 5760
    || leb 8192 c && leb c 8202
    || eqb c 8232
    || eqb c 8233
    || eqb c 8239
    || eqb c 8287
    || eqb c 12288

abbrev pub is_empty : String → Bool
is_empty [] = true
is_empty (c ∷ s) = false

unfoldable pub trim_left : String → String
trim_left [] = []
trim_left (c ∷ s) = let rest = trim_left s in if is_space (code c) then rest else c ∷ s

unfoldable pub trim_right : String → String
trim_right [] = []
trim_right (c ∷ s) =
    let rest = trim_right s in if is_space (code c) && is_empty rest then [] else c ∷ rest

-- `strings.TrimSpace`.
unfoldable pub trim_space : String → String
unfolding trim_left trim_right
trim_space s = trim_right (trim_left s)

-- Is there nothing but space in the text?
abbrev pub is_blank : String → Bool
is_blank s = is_empty (trim_space s)

trim_right_idem : (s : String) → trim_right (trim_right s) ≡ trim_right s
unfolding trim_right
trim_right_idem [] = refl
trim_right_idem (c ∷ s) = elim (Bool-cases (is_space (code c) && is_empty (trim_right s))) [
  | inl gone ↦ rw gone
  | inr kept ↦ rw kept (rw (trim_right_idem s) (rw kept))
]

trim_left-trim_right :
    (s : String) → trim_left (trim_right (trim_left s)) ≡ trim_right (trim_left s)
unfolding trim_left trim_right
trim_left-trim_right [] = refl
trim_left-trim_right (c ∷ s) = elim (Bool-cases (is_space (code c))) [
  | inl space ↦ rw space (trim_left-trim_right s)
  | inr text ↦ rw text (rw text (rw text))
]

-- Trimming twice is trimming once.
pub trim_space_idem : (s : String) → trim_space (trim_space s) ≡ trim_space s
unfolding trim_space
trim_space_idem s = rw (trim_left-trim_right s) (trim_right_idem (trim_left s))

-- `strings.Join`.
unfoldable pub join : String → List String → String
join sep List.[] = ""
join sep (List.◌∷◌ s ss) = elim ss [ List.[] ↦ s | _ ↦ s ++ sep ++ join sep ss ]

abbrev digit : ℕ → String
digit d =
    if eqb d 0
    then "0"
    else if eqb d 1
    then "1"
    else if eqb d 2
    then "2"
    else if eqb d 3
    then "3"
    else if eqb d 4
    then "4"
    else if eqb d 5
    then "5"
    else if eqb d 6
    then "6"
    else if eqb d 7
    then "7"
    else if eqb d 8
    then "8"
    else "9"

digits : ℕ → ℕ → String → String
digits zero n acc = acc
digits (suc fuel) n acc =
    let rest = digits fuel (n / 10) (digit (n % 10) ++ acc) in
    if ltb n 10 then digit n ++ acc else rest

-- `strconv.Itoa`, and `%d` of an `int`.
unfoldable pub itoa : ℤ → String
unfolding digits
itoa (pos n) = digits (suc n) n ""
itoa (negsuc n) = "-" ++ digits (suc (suc n)) (suc n) ""

itoa_runs : itoa (negsuc 1204) ≡ "-1205"
unfolding itoa
itoa_runs = refl

trim_runs : trim_space "  a b\n " ≡ "a b"
unfolding trim_space
trim_runs = refl

-- The pieces of a text, as `fmt.Sprintf` puts them together.
unfoldable pub concat : List String → String
concat List.[] = ""
concat (List.◌∷◌ s ss) = s ++ concat ss
