-- ===== src/Engine/Query/Newest.antt =====
-- `EventsSnapshot` against a description without a loop.
use rpi_procmon.Base.{
  ℕ, zero, suc, ◌+◌, ◌-◌, ◌≤◌, ◌<◌, Bool, true, false, not, ◌&&◌, ◌||◌, ◌≡◌, refl, sym, ap, ◌∙◌,
  Option, none, some, List, [], ◌∷◌, ◌++◌, reverse, arith, length, ℤ, pos, eqb_ℤ, ltb_ℤ, ◌==◌, leb,
  take, select, get_elem?, length-append, Bool-cases, inl, inr, leb→le,
}
use mathlib.Core.List.{append-nil, append_assoc, reverse-append}
use rpi_procmon.Base.Text.{is_empty}
use rpi_procmon.Events.{Event, Filter}
use rpi_procmon.Engine.Env.{TimePackage, Shared}
use rpi_procmon.Engine.Query.{event_limit, is_skipped, collect, events_snapshot}

abbrev at_or_after : Option ℤ → ℤ → Bool
at_or_after none since = false
at_or_after (some t) since = not (ltb_ℤ t since)

-- The events that a filter asks for: of the monitor and of the type that it names, if it names
-- them, and not before its time, if it has one; then an event without a readable time is left out.
abbrev pub passes : TimePackage → Filter → Event → Bool
passes time filter event =
    (is_empty filter.monitor_id || event.monitor_id == filter.monitor_id)
    && (is_empty filter.event_type || event.event_type == filter.event_type)
    && (eqb_ℤ filter.since (pos 0) || at_or_after (time.parse event.timestamp) filter.since)

take-suc :
    (i : ℕ) (events : List Event) {e : Event}
    → get_elem? events i ≡ some e
    → take (suc i) events ≡ take i events ++ e ∷ []
take-suc zero (x ∷ xs) h = ground arith
take-suc zero [] h = cc
take-suc (suc i) [] h = cc
take-suc (suc i) (x ∷ xs) h = ap (λ (r : List Event). x ∷ r) (take-suc i xs h)

get_elem?_in_range :
    (i : ℕ) (events : List Event) → i < length events → (e : Event) × (get_elem? events i ≡ some e)
get_elem?_in_range i [] h = absurd (omega arith)
get_elem?_in_range zero (x ∷ xs) h = (x, refl)
get_elem?_in_range (suc i) (x ∷ xs) h = get_elem?_in_range i xs (omega arith)

take_all : (events : List Event) → take (length events) events ≡ events
take_all [] = refl
take_all (x ∷ xs) = ap (λ (r : List Event). x ∷ r) (take_all xs)

length-snoc : (xs : List Event) (e : Event) → length (xs ++ e ∷ []) ≡ length xs + 1
length-snoc xs e = length-append xs (e ∷ [])

reverse-take-suc :
    (i : ℕ) (events : List Event) {e : Event}
    → get_elem? events i ≡ some e
    → reverse (take (suc i) events) ≡ e ∷ reverse (take i events)
reverse-take-suc i events {e} h =
    ap reverse (take-suc i events h) ∙ reverse-append (take i events) (e ∷ [])

take-nil : (n : ℕ) → take {A = Event} n [] ≡ []
take-nil zero = refl
take-nil (suc n) = refl

-- Room for one more: the first event goes to the result.
append-take_cons :
    (limit : ℕ) (result found : List Event) (e : Event)
    → length result < limit
    → result ++ take (limit - length result) (e ∷ found)
      ≡ (result ++ e ∷ []) ++ take (limit - length (result ++ e ∷ [])) found
append-take_cons limit result found e room =
    let one : limit - length result ≡ suc (limit - length (result ++ e ∷ [])) =
      omega (arith, length-snoc result e) in
    rw one (sym (append_assoc result (e ∷ []) (take (limit - length (result ++ e ∷ [])) found)))

append-take_full :
    (limit : ℕ) (result found : List Event)
    → limit ≤ length result
    → result ++ take (limit - length result) found ≡ result
append-take_full limit result found full =
    let none_left : limit - length result ≡ 0 = omega arith in rw none_left (append-nil result)

module _ (time : TimePackage) (filter : Filter) where
  is_skipped-passes : (e : Event) → is_skipped time filter e ≡ not (passes time filter e)
  unfolding is_skipped
  is_skipped-passes e = ground arith

  collect-done :
      (limit i : ℕ) (events result : List Event) {e : Event}
      → get_elem? events i ≡ some e
      → is_skipped time filter e ≡ false
      → leb limit (length (result ++ e ∷ [])) ≡ true
      → collect time filter limit events (suc i) result ≡ result ++ e ∷ []
  unfolding collect
  collect-done limit i events result at kept full = ground arith

  collect-next :
      (limit i : ℕ) (events result : List Event) {e : Event}
      → get_elem? events i ≡ some e
      → is_skipped time filter e ≡ false
      → leb limit (length (result ++ e ∷ [])) ≡ false
      → collect time filter limit events (suc i) result
        ≡ collect time filter limit events i (result ++ e ∷ [])
  unfolding collect
  collect-next limit i events result at kept room = ground arith

  collect-skip :
      (limit i : ℕ) (events result : List Event) {e : Event}
      → get_elem? events i ≡ some e
      → is_skipped time filter e ≡ true
      → collect time filter limit events (suc i) result ≡ collect time filter limit events i result
  unfolding collect
  collect-skip limit i events result at skipped = ground arith

  -- The loop's result: what it had, and the newest events of those below the index that pass.
  collect_lem :
      (limit i : ℕ) (events result : List Event)
      → i ≤ length events
      → length result < limit
      → collect time filter limit events i result
        ≡ result
          ++ take (limit - length result) (select (passes time filter) (reverse (take i events)))
  unfolding collect
  collect_lem limit zero events result fits room =
      rw (take-nil (limit - length result)) (sym (append-nil result))
  collect_lem limit (suc i) events result fits room =
      let (e, at) = get_elem?_in_range i events fits in
      rw (reverse-take-suc i events at) (elim (Bool-cases (is_skipped time filter e)) [
        | inl skip ↦
            let out : passes time filter e ≡ false = ground (arith, is_skipped-passes e) in
            rw out (
              collect-skip limit i events result at skip
              ∙ collect_lem limit i events result (omega arith) room)
        | inr kept ↦
            let in_it : passes time filter e ≡ true = ground (arith, is_skipped-passes e) in
            rw in_it (elim (Bool-cases (leb limit (length (result ++ e ∷ [])))) [
              | inl full ↦
                  collect-done limit i events result at kept full
                  ∙ sym (
                      append-take_cons limit result _ e room
                      ∙ append-take_full limit (result ++ e ∷ []) _ (leb→le _ _ full))
              | inr more ↦
                  collect-next limit i events result at kept more
                  ∙ collect_lem limit i events (result ++ e ∷ []) (omega arith) (ground arith)
                  ∙ sym (append-take_cons limit result _ e room)
            ])
      ])

event_limit_pos : (limit : ℤ) → (0 < event_limit limit) × (event_limit limit ≤ 500)
unfolding event_limit
event_limit_pos limit = ground arith

-- The answer to a query is the newest events that pass the filter, newest first, as many as
-- `event_limit` of the query's limit allows; that number lies between 1 and 500.
pub events_snapshot-newest :
    (time : TimePackage) (filter : Filter) (sh : Shared)
    → (events_snapshot time filter sh
        ≡ take
            (event_limit filter.limit)
            (select (passes time filter) (reverse sh.event_history.events)))
      × (0 < event_limit filter.limit)
      × (event_limit filter.limit ≤ 500)
unfolding events_snapshot
events_snapshot-newest time filter sh =
    let events = sh.event_history.events in
    let limit = event_limit filter.limit in
    let bounds = event_limit_pos filter.limit in
    let whole : limit - 0 ≡ limit = omega arith in
    (
      collect_lem time filter limit (length events) events [] (omega arith) (omega arith)
          ∙ ap
              (λ (n : ℕ).
                take n (select (passes time filter) (reverse (take (length events) events))))
              whole
          ∙ ap (λ (es : List Event). take limit (select (passes time filter) (reverse es)))
              (take_all events),
      bounds.0,
      bounds.1,
    )
