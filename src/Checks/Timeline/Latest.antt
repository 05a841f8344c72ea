-- ===== src/Checks/Timeline/Latest.antt =====
-- internal/checks/checks.go: the times that `findLatestPatternTimestamps` returns are the latest.
use rpi_procmon.Base.{
  ◌≡◌, refl, sym, subst, ◌∙◌, String, Bool, true, false, ◌⊎◌, inl, inr, Option, none, some, List,
  [], ◌∷◌, ℤ, pos, negsuc, pos_part, neg_part, ltb, ltb_ℤ, ltb→lt, ℕ, ◌≤◌, ◌+◌, if◌then◌else◌,
  Bool-cases, Option-cases, arith,
}
use rpi_procmon.Checks.Patterns.{Regexp, first_match}
use rpi_procmon.Checks.Timeline.{is_hit, later, advance, split_timestamp, find_latest}

-- No time of the list is after `t`.
abbrev pub Bounds : ℤ → List ℤ → Type 0
Bounds t [] = Unit
Bounds t (x ∷ xs) = (ltb_ℤ t x ≡ false) × Bounds t xs

abbrev pub Among : ℤ → List ℤ → Type 0
Among t [] = ⊥
Among t (x ∷ xs) = (t ≡ x) ⊎ Among t xs

-- `t` is `from` or one of the times, and none of these is after it.
abbrev pub IsLatest : ℤ → List ℤ → ℤ → Type 0
IsLatest from xs t = ((t ≡ from) ⊎ Among t xs) × (ltb_ℤ t from ≡ false) × Bounds t xs

abbrev larger : ℤ → ℤ → ℤ
larger from x = if ltb_ℤ from x then x else from

-- The latest of a time and these.
unfoldable pub latest : ℤ → List ℤ → ℤ
latest from [] = from
latest from (x ∷ xs) = latest (larger from x) xs

off_le : (a b : ℕ) → ltb a b ≡ false → b ≤ a
off_le a b h = ground arith

ltb_off : (a b : ℕ) → b ≤ a → ltb a b ≡ false
ltb_off a b h = ground arith

not_after_self : (x : ℤ) → ltb_ℤ x x ≡ false
not_after_self (pos n) = ground arith
not_after_self (negsuc n) = ground arith

trans_left : (t from x : ℤ) → ltb_ℤ from x ≡ true → ltb_ℤ t x ≡ false → ltb_ℤ t from ≡ false
trans_left t from x h k =
    ltb_off (pos_part t + neg_part from) (pos_part from + neg_part t)
      (omega (arith, ltb→lt _ _ h, off_le (pos_part t + neg_part x) (pos_part x + neg_part t) k))

trans_right : (t from x : ℤ) → ltb_ℤ from x ≡ false → ltb_ℤ t from ≡ false → ltb_ℤ t x ≡ false
trans_right t from x h k = ltb_off (pos_part t + neg_part x) (pos_part x + neg_part t) (
    omega (
      arith,
      off_le (pos_part from + neg_part x) (pos_part x + neg_part from) h,
      off_le (pos_part t + neg_part from) (pos_part from + neg_part t) k,
    ))

add-later :
    (from x t : ℤ) (xs : List ℤ) → ltb_ℤ from x ≡ true → IsLatest x xs t → IsLatest from (x ∷ xs) t
add-later from x t xs after (one, least, bounds) =
    (inr one, trans_left t from x after least, (least, bounds))

add-earlier :
    (from x t : ℤ) (xs : List ℤ)
    → ltb_ℤ from x ≡ false
    → IsLatest from xs t
    → IsLatest from (x ∷ xs) t
add-earlier from x t xs kept (one, least, bounds) = (
  elim one [ inl e ↦ inl e | inr a ↦ inr (inr a) ],
  least,
  (trans_right t from x kept least, bounds),
)

pub latest-IsLatest : (from : ℤ) (xs : List ℤ) → IsLatest from xs (latest from xs)
unfolding latest
latest-IsLatest from [] = (inl refl, not_after_self from, tt)
latest-IsLatest from (x ∷ xs) = elim (Bool-cases (ltb_ℤ from x)) [
  | inl after ↦
      subst (λ (s : ℤ). IsLatest from (x ∷ xs) (latest s xs)) (rw after refl)
        (add-later from x (latest x xs) xs after (latest-IsLatest x xs))
  | inr kept ↦
      subst (λ (s : ℤ). IsLatest from (x ∷ xs) (latest s xs)) (rw kept refl)
        (add-earlier from x (latest from xs) xs kept (latest-IsLatest from xs))
]

module _ (re : Regexp) (parse_nano : String → Option ℤ) where
  abbrev keep : Bool → ℤ → List ℤ → List ℤ
  keep true at rest = at ∷ rest
  keep false at rest = rest

  abbrev add_time : List String → Option (ℤ × String) → List ℤ → List ℤ
  add_time patterns none rest = rest
  add_time patterns (some (at, message)) rest =
      keep (is_hit re parse_nano (first_match re patterns message)) at rest

  -- The times of the lines with a timestamp whose message some pattern matches.
  abbrev pub times : List String → List String → List ℤ
  times patterns [] = []
  times patterns (line ∷ lines) =
      add_time patterns (split_timestamp re parse_nano line) (times patterns lines)

  latest-add_time :
      (patterns : List String) (stamp : Option (ℤ × String)) (rest : List ℤ) (from : ℤ)
      → latest from (add_time patterns stamp rest)
        ≡ latest (advance re parse_nano patterns stamp from) rest
  unfolding latest advance later
  latest-add_time patterns none rest from = refl
  latest-add_time patterns (some (at, message)) rest from =
      elim (Option-cases (first_match re patterns message)) [
        | inl e ↦ rw e refl
        | inr (p, e) ↦ rw e refl
      ]

  pub find_latest-latest :
      (failures successes lines : List String) (from_failure from_success : ℤ)
      → find_latest re parse_nano failures successes lines from_failure from_success
        ≡ (latest from_failure (times failures lines), latest from_success (times successes lines))
  unfolding find_latest latest
  find_latest-latest failures successes [] f s = refl
  find_latest-latest failures successes (line ∷ lines) f s =
      let stamp = split_timestamp re parse_nano line in
      find_latest-latest failures successes lines (advance re parse_nano failures stamp f)
        (advance re parse_nano successes stamp s)
      ∙ (λ i. (
        sym (latest-add_time failures stamp (times failures lines) f) i,
        sym (latest-add_time successes stamp (times successes lines) s) i,
      ))

-- `findLatestPatternTimestamps` returns, of the lines with a timestamp, the latest time among those
-- that a failure pattern matches and the latest among those that a success pattern matches, however
-- the lines are ordered; the time it started with, if there is none after it.
pub find_latest-IsLatest :
    (re : Regexp) (parse_nano : String → Option ℤ) (failures successes lines : List String)
    (from_failure from_success : ℤ)
    → IsLatest from_failure
        (times re parse_nano failures lines)
        (find_latest re parse_nano failures successes lines from_failure from_success).0
      × IsLatest from_success
          (times re parse_nano successes lines)
          (find_latest re parse_nano failures successes lines from_failure from_success).1
find_latest-IsLatest re parse_nano failures successes lines f s =
    rw (find_latest-latest re parse_nano failures successes lines f s) (
      latest-IsLatest f (times re parse_nano failures lines),
      latest-IsLatest s (times re parse_nano successes lines),
    )
