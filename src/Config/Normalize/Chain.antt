-- ===== src/Config/Normalize/Chain.antt =====
-- The chains of tests in `Normalize` (internal/config/load.go): what a chain that succeeds has
-- passed.
use rpi_procmon.Base.{Bool, true, false, ◌≡◌, refl, ap, subst, Option, none, some}
use rpi_procmon.Config.Validate.{ConfigError}
use rpi_procmon.Config.Normalize.{Result, ok, err, ◌>>=◌, ◌>>◌, refuse, require}

pub IsErr : {A : Type 0} → Result A → Type 0
IsErr (err e) = Unit
IsErr (ok a) = ⊥

pub err-ne-ok : {A : Type 0} {e : ConfigError} {a : A} → err e ≡ ok a → ⊥
unfolding IsErr
err-ne-ok h = subst IsErr h tt

pub ok_or : {A : Type 0} → A → Result A → A
ok_or d (ok a) = a
ok_or d (err e) = d

pub ok-injective : {A : Type 0} {a b : A} → ok a ≡ ok b → a ≡ b
unfolding ok_or
ok-injective {a = a} h = ap (ok_or a) h

-- A chain of steps that succeeds has passed each of them.
pub bind-ok :
    {A B : Type 0} (m : Result A) (f : A → Result B) (b : B)
    → (m >>= f) ≡ ok b
    → (a : A) × (m ≡ ok a) × (f a ≡ ok b)
bind-ok (ok a) f b h = (a, refl, h)
bind-ok (err e) f b h = absurd (err-ne-ok h)

pub refuse-ok :
    {B : Type 0} (bad : Bool) (e : ConfigError) (k : Result B) (b : B)
    → (refuse bad e >> k) ≡ ok b
    → (bad ≡ false) × (k ≡ ok b)
refuse-ok true e k b h = absurd (err-ne-ok h)
refuse-ok false e k b h = (refl, h)

pub require-ok :
    {B : Type 0} (o : Option ConfigError) (k : Result B) (b : B)
    → (require o >> k) ≡ ok b
    → (o ≡ none) × (k ≡ ok b)
require-ok none k b h = (refl, h)
require-ok (some e) k b h = absurd (err-ne-ok h)
