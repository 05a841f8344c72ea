-- ===== src/Base/Text/Blank.antt =====
-- When a text is blank.
use Prim.Native.Char.{code}
use Prim.Native.String.{String, [], ◌∷◌, ◌++◌}
use mathlib.Core.Path.{◌≡◌, refl}
use mathlib.Core.Bool.{Bool, true, false, ◌&&◌}
use mathlib.Core.List
use native.Mathlib.Omega.{arith}
use text.Mathlib.TextLemmas.{cons-append, nil-append}
use mathlib.Core.Logic.{inl, inr}
use rpi_procmon.Base.Tests.{Bool-cases}
use rpi_procmon.Base.Text.{is_space, is_empty, is_blank, trim_space, trim_space_idem, concat}

all_space : String → Bool
all_space [] = true
all_space (c ∷ s) = is_space (code c) && all_space s

is_blank-all_space : (s : String) → is_blank s ≡ all_space s
unfolding all_space trim_space
is_blank-all_space [] = refl
is_blank-all_space (c ∷ s) = elim (Bool-cases (is_space (code c))) [
  | inl space ↦ rw space (is_blank-all_space s)
  | inr text ↦ rw text (rw text refl)
]

all_space-append : (s t : String) → all_space (s ++ t) ≡ (all_space s && all_space t)
unfolding all_space
all_space-append [] t = rw (nil-append t) refl
all_space-append (c ∷ s) t = rw (cons-append c s t) (ground (arith, all_space-append s t))

-- A text with a part that is not blank is not blank.
pub concat-ne-blank :
    (s : String) (ss : List.List String)
    → is_blank s ≡ false
    → is_blank (concat (List.◌∷◌ s ss)) ≡ false
unfolding concat
concat-ne-blank s ss h = ground (
  arith,
  is_blank-all_space s,
  is_blank-all_space (s ++ concat ss),
  all_space-append s (concat ss),
)

pub trim_space-ne-blank :
    (s : String) → is_empty (trim_space s) ≡ false → is_blank (trim_space s) ≡ false
trim_space-ne-blank s h = rw (trim_space_idem s) h
