-- ===== src/Base/Text/Split.antt =====
-- Go's `strings.Fields`, `Split`, `Trim`, `HasPrefix`, `TrimPrefix`, `EqualFold` and `Contains`, as
-- far as the program uses them.
use Prim.Native.Nat.{ℕ, ◌+◌}
use Prim.Native.Char.{code}
use Prim.Native.String.{String, [], ◌∷◌, ◌++◌}
use mathlib.Core.Path.{◌≡◌, refl}
use mathlib.Core.Bool.{Bool, true, false, ◌&&◌, ◌||◌}
use mathlib.Core.List.{List}
use mathlib.Core.Option.{Option, none, some}
use rpi_procmon.Base.Tests.{leb, eqb, if◌then◌else◌}
use rpi_procmon.Base.Text.{is_space, is_empty}

-- The words of the text, behind the part `cur` of one.
unfoldable pub fields_from : String → String → List String
fields_from cur [] = if is_empty cur then List.[] else List.◌∷◌ cur List.[]
fields_from cur (c ∷ s) = elim (is_space (code c)) [
  | true ↦ let rest = fields_from [] s in if is_empty cur then rest else List.◌∷◌ cur rest
  | false ↦ fields_from (cur ++ c ∷ []) s
]

-- `strings.Fields`.
unfoldable pub fields : String → List String
unfolding fields_from
fields s = fields_from [] s

unfoldable pub split_from : ℕ → String → String → List String
split_from sep cur [] = List.◌∷◌ cur List.[]
split_from sep cur (c ∷ s) = elim (eqb (code c) sep) [
  | true ↦ List.◌∷◌ cur (split_from sep [] s)
  | false ↦ split_from sep (cur ++ c ∷ []) s
]

-- `strings.Split`, by a separator of one character, given by its code.
unfoldable pub split_on : ℕ → String → List String
unfolding split_from
split_on sep s = split_from sep [] s

trim_left_of : ℕ → String → String
trim_left_of k [] = []
trim_left_of k (c ∷ s) = let rest = trim_left_of k s in if eqb (code c) k then rest else c ∷ s

trim_right_of : ℕ → String → String
trim_right_of k [] = []
trim_right_of k (c ∷ s) =
    let rest = trim_right_of k s in if eqb (code c) k && is_empty rest then [] else c ∷ rest

-- `strings.Trim`, with one character in its set.
unfoldable pub trim_of : ℕ → String → String
unfolding trim_left_of trim_right_of
trim_of k s = trim_right_of k (trim_left_of k s)

-- What follows the prefix, if the text has it.
unfoldable pub after_prefix? : String → String → Option String
after_prefix? [] s = some s
after_prefix? (p ∷ ps) [] = none
after_prefix? (p ∷ ps) (c ∷ s) =
    let rest = after_prefix? ps s in if eqb (code p) (code c) then rest else none

is_some : Option String → Bool
is_some none = false
is_some (some s) = true

-- `strings.HasPrefix`, with the prefix first.
unfoldable pub has_prefix : String → String → Bool
unfolding after_prefix? is_some
has_prefix prefix s = is_some (after_prefix? prefix s)

or_whole : String → Option String → String
or_whole s none = s
or_whole s (some rest) = rest

-- `strings.TrimPrefix`, with the prefix first.
unfoldable pub trim_prefix : String → String → String
unfolding after_prefix? or_whole
trim_prefix prefix s = or_whole s (after_prefix? prefix s)

-- `strings.Contains`, with the part first.
unfoldable pub contains : String → String → Bool
unfolding has_prefix
contains part [] = is_empty part
contains part (c ∷ s) = has_prefix part (c ∷ s) || contains part s

abbrev behind : String → Option (String × String) → Option (String × String)
behind c none = none
behind c (some (before, after)) = some (c ++ before, after)

-- What stands before and after the first separator, given by its code.
unfoldable pub cut_at : ℕ → String → Option (String × String)
cut_at sep [] = none
cut_at sep (c ∷ s) =
    let rest = cut_at sep s in if eqb (code c) sep then some ([], s) else behind (c ∷ []) rest

-- `strings.TrimSuffix`, with a suffix of one character.
unfoldable pub trim_suffix_of : ℕ → String → String
trim_suffix_of k [] = []
trim_suffix_of k (c ∷ s) =
    let rest = trim_suffix_of k s in if eqb (code c) k && is_empty s then [] else c ∷ rest

abbrev pub lower_code : ℕ → ℕ
lower_code c = if leb b'A' c && leb c b'Z' then c + 32 else c

-- `strings.EqualFold`, of a text with letters that have no case variants outside ASCII.
unfoldable pub equal_fold : String → String → Bool
equal_fold [] [] = true
equal_fold [] (d ∷ t) = false
equal_fold (c ∷ s) [] = false
equal_fold (c ∷ s) (d ∷ t) = eqb (lower_code (code c)) (lower_code (code d)) && equal_fold s t

fields_runs : fields "  a bc\t d" ≡ List.◌∷◌ "a" (List.◌∷◌ "bc" (List.◌∷◌ "d" List.[]))
unfolding fields
fields_runs = refl

split_runs : split_on b'/' "a//b" ≡ List.◌∷◌ "a" (List.◌∷◌ "" (List.◌∷◌ "b" List.[]))
unfolding split_on
split_runs = refl

trim_runs : trim_of b'/' "/a/b//" ≡ "a/b"
unfolding trim_of
trim_runs = refl

contains_runs : contains "ell" "hello" ≡ true
unfolding contains
contains_runs = refl

equal_fold_runs : equal_fold "bEARER" "Bearer" ≡ true
unfolding equal_fold
equal_fold_runs = refl
