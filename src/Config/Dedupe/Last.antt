-- ===== src/Config/Dedupe/Last.antt =====
-- The result of `dedupe_monitors` without its table of indices: each monitor goes to the place of
-- an earlier one of its id, or to the end.
use rpi_procmon.Base.{
  ℕ, zero, suc, String, Bool, true, false, ◌≡◌, refl, sym, ap, ◌∙◌, Option, none, some, List, [],
  ◌∷◌, ◌++◌, arith, ◌==◌, eq_iff, if◌then◌else◌, length, set, has, IsDistinct, subst, ◌||◌,
  Bool-cases, inl, inr,
}
use mathlib.Core.Option
use rpi_procmon.Base.Dict.{lookup, lookup-insert}
use rpi_procmon.Base.Text.{trim_space, is_empty}
use rpi_procmon.Config.Types.{MonitorConfig}
use rpi_procmon.Config.Dedupe.{
  Dedupe, trimmed, note_duplicate, placed, dedupe_loop, no_monitors, dedupe_monitors,
}

-- The place of the first monitor of an id.
position : String → List MonitorConfig → Option ℕ
position id [] = none
position id (x ∷ xs) = if x.id == id then some 0 else Option.map suc (position id xs)

-- A monitor replaces the first one of its id, or is added at the end.
place : MonitorConfig → List MonitorConfig → List MonitorConfig
place mon [] = mon ∷ []
place mon (x ∷ xs) = if x.id == mon.id then mon ∷ xs else x ∷ place mon xs

set-place :
    (mon : MonitorConfig) (ms : List MonitorConfig) (i : ℕ)
    → position mon.id ms ≡ some i
    → set ms i mon ≡ place mon ms
unfolding position place
set-place mon [] i h = cc
set-place mon (x ∷ xs) zero h = ground arith
set-place mon (x ∷ xs) (suc i) h = ground (arith, set-place mon xs i)

append-place :
    (mon : MonitorConfig) (ms : List MonitorConfig)
    → position mon.id ms ≡ none
    → ms ++ mon ∷ [] ≡ place mon ms
unfolding position place
append-place mon [] h = refl
append-place mon (x ∷ xs) h = ground (arith, append-place mon xs)

position-place_old :
    (mon : MonitorConfig) (ms : List MonitorConfig) (j : String) (i : ℕ)
    → position mon.id ms ≡ some i
    → position j (place mon ms) ≡ position j ms
unfolding position place
position-place_old mon [] j i h = cc
position-place_old mon (x ∷ xs) j zero h =
    ground (arith, eq_iff x.id mon.id, eq_iff x.id j, eq_iff mon.id j)
position-place_old mon (x ∷ xs) j (suc i) h =
    ground
      (arith, position-place_old mon xs j i, eq_iff x.id mon.id, eq_iff x.id j, eq_iff mon.id j)

position-place_new :
    (mon : MonitorConfig) (ms : List MonitorConfig) (j : String)
    → position mon.id ms ≡ none
    → position j (place mon ms) ≡ (if mon.id == j then some (length ms) else position j ms)
unfolding position place
position-place_new mon [] j h = refl
position-place_new mon (x ∷ xs) j h =
    ground (arith, position-place_new mon xs j, eq_iff x.id mon.id, eq_iff x.id j, eq_iff mon.id j)

-- The table of indices agrees with the list.
abbrev IsIndexed : Dedupe → Type 0
IsIndexed d = (id : String) → lookup id d.index_by_id ≡ position id d.deduped

record IsPlaced (mon : MonitorConfig) (d d' : Dedupe) : Type 0 where
  list : d'.deduped ≡ place mon d.deduped
  indexed : IsIndexed d'

note_duplicate-same :
    (id : String) (d : Dedupe)
    → ((note_duplicate id d).deduped ≡ d.deduped)
      × ((note_duplicate id d).index_by_id ≡ d.index_by_id)
unfolding note_duplicate
note_duplicate-same id d = ground arith

placed-IsPlaced :
    (mon : MonitorConfig) (d : Dedupe) (o : Option ℕ)
    → IsIndexed d
    → lookup mon.id d.index_by_id ≡ o
    → IsPlaced mon d (placed mon o d)
unfolding placed
placed-IsPlaced mon d none indexed at =
    let new : position mon.id d.deduped ≡ none = sym (indexed mon.id) ∙ at in
    record {
      list = append-place mon d.deduped new;
      indexed = λ j.
          lookup-insert mon.id j (length d.deduped) d.index_by_id
          ∙ ap (λ o. if mon.id == j then some (length d.deduped) else o) (indexed j)
          ∙ sym (position-place_new mon d.deduped j new)
          ∙ ap (position j) (sym (append-place mon d.deduped new));
    }
placed-IsPlaced mon d (some i) indexed at =
    let old : position mon.id d.deduped ≡ some i = sym (indexed mon.id) ∙ at in
    let set_at : Dedupe = record d { deduped = set d.deduped i mon } in
    let (same_list, same_index) = note_duplicate-same mon.id set_at in
    record {
      list = same_list ∙ set-place mon d.deduped i old;
      indexed = λ j.
          ap (lookup j) same_index
          ∙ indexed j
          ∙ sym (position-place_old mon d.deduped j i old)
          ∙ ap (position j) (sym (same_list ∙ set-place mon d.deduped i old));
    }

all_placed : List MonitorConfig → List MonitorConfig → List MonitorConfig
all_placed [] ms = ms
all_placed (mon ∷ mons) ms = all_placed mons (place (trimmed mon) ms)

-- Does a monitor of the list lack an id?
abbrev pub has_blank : List MonitorConfig → Bool
has_blank [] = false
has_blank (mon ∷ mons) = is_empty (trim_space mon.id) || has_blank mons

-- What the loop gives: the error for a missing id, or the monitors at their places.
abbrev Gives : Bool → List MonitorConfig → Option Dedupe → Type 0
Gives blank ms none = blank ≡ true
Gives blank ms (some d) = (blank ≡ false) × (d.deduped ≡ ms)

dedupe_loop-Gives :
    (mons : List MonitorConfig) (d : Dedupe)
    → IsIndexed d
    → Gives (has_blank mons) (all_placed mons d.deduped) (dedupe_loop mons d)
unfolding dedupe_loop all_placed
dedupe_loop-Gives [] d indexed = (refl, refl)
dedupe_loop-Gives (mon ∷ mons) d indexed = elim (Bool-cases (is_empty (trim_space mon.id))) [
  | inl blank ↦ rw blank refl
  | inr named ↦
      let step =
        placed-IsPlaced (trimmed mon) d (lookup (trim_space mon.id) d.index_by_id) indexed refl in
      rw named (
        subst
          (λ ms.
            Gives (has_blank mons) (all_placed mons ms) (
              dedupe_loop mons (placed (trimmed mon) (lookup (trim_space mon.id) d.index_by_id) d)))
          step.list
          (dedupe_loop-Gives mons
            (placed (trimmed mon) (lookup (trim_space mon.id) d.index_by_id) d) step.indexed))
]

-- The first monitor of an id.
abbrev pub find : String → List MonitorConfig → Option MonitorConfig
find id [] = none
find id (x ∷ xs) = if x.id == id then some x else find id xs

abbrev or_else : Option MonitorConfig → Option MonitorConfig → Option MonitorConfig
or_else none o = o
or_else (some x) o = some x

-- The last monitor whose trimmed id it is, with that id.
abbrev pub last_named : String → List MonitorConfig → Option MonitorConfig
last_named id [] = none
last_named id (mon ∷ mons) =
    or_else (last_named id mons) (if trim_space mon.id == id then some (trimmed mon) else none)

find-place :
    (mon : MonitorConfig) (ms : List MonitorConfig) (j : String)
    → find j (place mon ms) ≡ (if mon.id == j then some mon else find j ms)
unfolding place
find-place mon [] j = refl
find-place mon (x ∷ xs) j =
    ground (arith, find-place mon xs j, eq_iff x.id mon.id, eq_iff x.id j, eq_iff mon.id j)

or_else_assoc : (a b c : Option MonitorConfig) → or_else (or_else a b) c ≡ or_else a (or_else b c)
or_else_assoc a b c = ground arith

or_else-if :
    (b : Bool) (mon : MonitorConfig) (o : Option MonitorConfig)
    → (if b then some mon else o) ≡ or_else (if b then some mon else none) o
or_else-if b mon o = ground arith

find-all_placed :
    (mons ms : List MonitorConfig) (j : String)
    → find j (all_placed mons ms) ≡ or_else (last_named j mons) (find j ms)
unfolding all_placed
find-all_placed [] ms j = refl
find-all_placed (mon ∷ mons) ms j =
    find-all_placed mons (place (trimmed mon) ms) j
    ∙ ap (or_else (last_named j mons)) (
        find-place (trimmed mon) ms j
        ∙ or_else-if (trim_space mon.id == j) (trimmed mon) (find j ms))
    ∙ sym (or_else_assoc (last_named j mons) _ (find j ms))

abbrev pub ids : List MonitorConfig → List String
ids [] = []
ids (x ∷ xs) = x.id ∷ ids xs

has-place :
    (mon : MonitorConfig) (ms : List MonitorConfig) (j : String)
    → has (ids (place mon ms)) j ≡ (mon.id == j || has (ids ms) j)
unfolding place
has-place mon [] j = refl
has-place mon (x ∷ xs) j =
    ground (arith, has-place mon xs j, eq_iff x.id mon.id, eq_iff x.id j, eq_iff mon.id j)

place-IsDistinct :
    (mon : MonitorConfig) (ms : List MonitorConfig)
    → IsDistinct (ids ms)
    → IsDistinct (ids (place mon ms))
unfolding place
place-IsDistinct mon [] h = (refl, tt)
place-IsDistinct mon (x ∷ xs) h = elim (Bool-cases (x.id == mon.id)) [
  | inl same ↦ rw same (rw (← (eq_iff x.id mon.id).0 same) h)
  | inr other ↦ rw other (
    has-place mon xs x.id ∙ ground (arith, h.0, eq_iff x.id mon.id, eq_iff mon.id x.id),
    place-IsDistinct mon xs h.1,
  )
]

all_placed-IsDistinct :
    (mons ms : List MonitorConfig) → IsDistinct (ids ms) → IsDistinct (ids (all_placed mons ms))
unfolding all_placed
all_placed-IsDistinct [] ms h = h
all_placed-IsDistinct (mon ∷ mons) ms h =
    all_placed-IsDistinct mons (place (trimmed mon) ms) (place-IsDistinct (trimmed mon) ms h)

or_else-none : (o : Option MonitorConfig) → or_else o none ≡ o
or_else-none o = ground arith

-- What `dedupe_monitors` makes of the monitors.
abbrev pub IsDeduped : List MonitorConfig → Option Dedupe → Type 0
IsDeduped mons none = has_blank mons ≡ true
IsDeduped mons (some d) =
    (has_blank mons ≡ false)
    × IsDistinct (ids d.deduped)
    × ((id : String) → find id d.deduped ≡ last_named id mons)

IsDeduped-of :
    (mons : List MonitorConfig) (o : Option Dedupe)
    → Gives (has_blank mons) (all_placed mons []) o
    → IsDeduped mons o
IsDeduped-of mons none h = h
IsDeduped-of mons (some d) (named, is) = (
  named,
  rw is (all_placed-IsDistinct mons [] tt),
  λ id. rw is (find-all_placed mons [] id ∙ or_else-none (last_named id mons)),
)

-- Duplicate monitors are removed with an error exactly if some id is blank; otherwise the ids of
-- the result are distinct, and an id names in it the last monitor of the input with that id up to
-- surrounding space, or none if there is none.
pub dedupe_monitors-IsDeduped : (mons : List MonitorConfig) → IsDeduped mons (dedupe_monitors mons)
unfolding dedupe_monitors position lookup
dedupe_monitors-IsDeduped mons =
    IsDeduped-of mons (dedupe_loop mons no_monitors)
      (dedupe_loop-Gives mons no_monitors (λ id. refl))
