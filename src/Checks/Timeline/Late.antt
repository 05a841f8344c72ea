-- ===== src/Checks/Timeline/Late.antt =====
-- internal/checks/checks.go: is there a success after all failures?
use rpi_procmon.Base.{
  ◌≡◌, refl, sym, ap, ◌∙◌, Bool, true, false, not, ◌&&◌, ◌||◌, List, [], ◌∷◌, ℤ, pos, ltb_ℤ, eqb_ℤ,
  if◌then◌else◌, arith,
}
use rpi_procmon.Checks.Timeline.Latest.{latest, latest-IsLatest}

-- Is the time after `from` and after all of these?
abbrev pub is_after : ℤ → List ℤ → ℤ → Bool
is_after from [] t = ltb_ℤ from t
is_after from (f ∷ fs) t = ltb_ℤ f t && is_after from fs t

-- Is one of the successes after Go's zero time and after all failures?
abbrev pub is_late : List ℤ → List ℤ → Bool
is_late failures [] = false
is_late failures (t ∷ ts) = is_after (pos 0) failures t || is_late failures ts

abbrev larger : ℤ → ℤ → ℤ
larger a b = if ltb_ℤ a b then b else a

ltb-larger : (a b t : ℤ) → ltb_ℤ (larger a b) t ≡ ltb_ℤ b t && ltb_ℤ a t
ltb-larger a b t = ground arith

and_swap : (a b c : Bool) → a && (b && c) ≡ b && (a && c)
and_swap true b c = refl
and_swap false true c = refl
and_swap false false c = refl

or_assoc : (a b c : Bool) → (a || b) || c ≡ a || (b || c)
or_assoc true b c = refl
or_assoc false b c = refl

or_false : (b : Bool) → b || false ≡ b
or_false true = refl
or_false false = refl

is_after-larger :
    (a f : ℤ) (fs : List ℤ) (t : ℤ) → is_after (larger a f) fs t ≡ ltb_ℤ f t && is_after a fs t
is_after-larger a f [] t = ltb-larger a f t
is_after-larger a f (g ∷ fs) t =
    ap (λ (b : Bool). ltb_ℤ g t && b) (is_after-larger a f fs t)
    ∙ and_swap (ltb_ℤ g t) (ltb_ℤ f t) (is_after a fs t)

ltb-latest : (a : ℤ) (fs : List ℤ) (t : ℤ) → ltb_ℤ (latest a fs) t ≡ is_after a fs t
unfolding latest
ltb-latest a [] t = refl
ltb-latest a (f ∷ fs) t = ltb-latest (larger a f) fs t ∙ is_after-larger a f fs t

-- Is one of the times after `l`?
abbrev any_after : ℤ → List ℤ → Bool
any_after l [] = false
any_after l (t ∷ ts) = ltb_ℤ l t || any_after l ts

ltb_latest : (l a : ℤ) (ts : List ℤ) → ltb_ℤ l (latest a ts) ≡ ltb_ℤ l a || any_after l ts
unfolding latest
ltb_latest l a [] = sym (or_false (ltb_ℤ l a))
ltb_latest l a (t ∷ ts) =
    ltb_latest l (larger a t) ts
    ∙ ap (λ (b : Bool). b || any_after l ts) (right l a t)
    ∙ or_assoc (ltb_ℤ l a) (ltb_ℤ l t) (any_after l ts)
  where
    right : (l a t : ℤ) → ltb_ℤ l (larger a t) ≡ ltb_ℤ l a || ltb_ℤ l t
    right l a t = ground arith

any_after-is_late :
    (failures ts : List ℤ) → any_after (latest (pos 0) failures) ts ≡ is_late failures ts
any_after-is_late failures [] = refl
any_after-is_late failures (t ∷ ts) =
    λ i. ltb-latest (pos 0) failures t i || any_after-is_late failures ts i

-- The test of `runDockerLogPattern` on the latest failure and the latest success.
abbrev pub tests_late : ℤ → ℤ → Bool
tests_late failure success = not (eqb_ℤ success (pos 0)) && ltb_ℤ failure success

drop_zero_test : (l s : ℤ) → ltb_ℤ l (pos 0) ≡ false → tests_late l s ≡ ltb_ℤ l s
drop_zero_test l s h = ground arith

-- What the code makes of the two latest times is whether one success is after all failures.
pub tests_late-latest :
    (failures successes : List ℤ)
    → tests_late (latest (pos 0) failures) (latest (pos 0) successes) ≡ is_late failures successes
tests_late-latest failures successes =
    let l = latest (pos 0) failures in
    let start : ltb_ℤ l (pos 0) ≡ false = (latest-IsLatest (pos 0) failures).1 in
    drop_zero_test l (latest (pos 0) successes) start
    ∙ ltb_latest l (pos 0) successes
    ∙ ap (λ (b : Bool). b || any_after l successes) start
    ∙ any_after-is_late failures successes
