-- ===== src/Engine/Lock/Exclusion.antt =====
-- internal/engine/manager.go: no two goroutines have the lock of a monitor, and the lock is never
-- stuck.
use rpi_procmon.Base.{
  ◌≡◌, refl, sym, ap, subst, ◌∙◌, ℕ, String, Bool, true, false, ◌⊎◌, inl, inr, Option-cases,
  Bool-cases, eqb, arith,
}
use rpi_procmon.Base.Dict.{Dict, lookup, lookup-insert_self}
use rpi_procmon.Engine.Lock.{
  Phase, outside, waiting, holding, running, leaving, Move, enter, give_up, take, abort, begin,
  finish, release, Monitor, update, Step, step, Reach, start, later, has_lock, monitor_lock,
}

-- What a step does to the lock: nothing, take it, or give it back.
Move-effect :
    {full full' : Bool} {p p' : Phase}
    → Move full p full' p'
    → ((full' ≡ full) × (has_lock p' ≡ has_lock p))
      ⊎ (((full ≡ false) × (full' ≡ true) × (has_lock p' ≡ true))
          ⊎ ((full ≡ true) × (full' ≡ false) × (has_lock p ≡ true) × (has_lock p' ≡ false)))
Move-effect enter = inl (refl, refl)
Move-effect give_up = inl (refl, refl)
Move-effect take = inr (inl (refl, refl, refl))
Move-effect abort = inl (refl, refl)
Move-effect begin = inl (refl, refl)
Move-effect finish = inl (refl, refl)
Move-effect release = inr (inr (refl, refl, refl, refl))

-- The buffer is full exactly if one goroutine has the lock.
pub record IsOwned (s : Monitor) : Type 0 where
  pub free : s.full ≡ false → (i : ℕ) → has_lock (s.at i) ≡ false
  pub owner :
      s.full ≡ true
      → (o : ℕ) × (has_lock (s.at o) ≡ true) × ((i : ℕ) → has_lock (s.at i) ≡ true → i ≡ o)

eqb_self : (i : ℕ) → eqb i i ≡ true
eqb_self i = ground arith

eqb-eq : (i j : ℕ) → eqb i j ≡ true → i ≡ j
eqb-eq i j h = ground arith

update_self : (i : ℕ) (p : Phase) (at : ℕ → Phase) → update i p at i ≡ p
unfolding update
update_self i p at = rw (eqb_self i) refl

update-other : (i j : ℕ) (p : Phase) (at : ℕ → Phase) → eqb i j ≡ false → update i p at j ≡ at j
unfolding update
update-other i j p at h = rw h refl

module _ (s : Monitor) (owned : IsOwned s) (i : ℕ) (p : Phase) where
  -- A step that leaves the lock alone.
  same_holders :
      has_lock p ≡ has_lock (s.at i) → (j : ℕ) → has_lock (update i p s.at j) ≡ has_lock (s.at j)
  same_holders same j = elim (Bool-cases (eqb i j)) [
    | inl here ↦
        let e : i ≡ j = eqb-eq i j here in
        subst (λ (k : ℕ). has_lock (update i p s.at k) ≡ has_lock (s.at k)) e
          (ap has_lock (update_self i p s.at) ∙ same)
    | inr there ↦ ap has_lock (update-other i j p s.at there)
  ]

  kept :
      (full : Bool)
      → full ≡ s.full
      → has_lock p ≡ has_lock (s.at i)
      → IsOwned (record { full = full; at = update i p s.at })
  kept full same_full same = record {
    free = λ h j. same_holders same j ∙ owned.free (sym same_full ∙ h) j;
    owner = λ h.
        let (o, has_it, only) = owned.owner (sym same_full ∙ h) in
        (o, same_holders same o ∙ has_it, λ j mine. only j (sym (same_holders same j) ∙ mine));
  }

  taken :
      (full : Bool)
      → s.full ≡ false
      → full ≡ true
      → has_lock p ≡ true
      → IsOwned (record { full = full; at = update i p s.at })
  taken full was_free now_full has_it = record {
    free = λ h. absurd (cc (now_full, h));
    owner = λ h. (
      i,
      ap has_lock (update_self i p s.at) ∙ has_it,
      λ j mine. elim (Bool-cases (eqb i j)) [
        | inl here ↦ sym (eqb-eq i j here)
        | inr there ↦
            absurd
              (cc (sym (ap has_lock (update-other i j p s.at there)) ∙ mine, owned.free was_free j))
      ],
    );
  }

  released :
      (full : Bool)
      → s.full ≡ true
      → full ≡ false
      → has_lock (s.at i) ≡ true
      → has_lock p ≡ false
      → IsOwned (record { full = full; at = update i p s.at })
  released full was_full now_free had lost =
      let (o, has_it, only) = owned.owner was_full in
      record {
        free = λ h j. elim (Bool-cases (eqb i j)) [
          | inl here ↦
              subst (λ (k : ℕ). has_lock (update i p s.at k) ≡ false) (eqb-eq i j here)
                (ap has_lock (update_self i p s.at) ∙ lost)
          | inr there ↦ ap has_lock (update-other i j p s.at there) ∙ (not_owner o only j there)
        ];
        owner = λ h. absurd (cc (now_free, h));
      }
    where
      not_owner :
          (o : ℕ)
          → ((k : ℕ) → has_lock (s.at k) ≡ true → k ≡ o)
          → (j : ℕ) → eqb i j ≡ false
          → has_lock (s.at j) ≡ false
      not_owner o only j there = elim (Bool-cases (has_lock (s.at j))) [
        | inr none' ↦ none'
        | inl mine ↦
            let e : i ≡ j = only i had ∙ sym (only j mine) in
            absurd (cc (there, sym (ap (eqb i) e) ∙ eqb_self i))
      ]

Step-IsOwned : {s t : Monitor} → IsOwned s → Step s t → IsOwned t
Step-IsOwned {s = s} owned (step i {full} {p} move) = elim (Move-effect move) [
  | inl (same_full, same) ↦ kept s owned i p full same_full same
  | inr (inl (was_free, now_full, has_it)) ↦ taken s owned i p full was_free now_full has_it
  | inr (inr (was_full, now_free, had, lost)) ↦ released s owned i p full was_full now_free had lost
]

Reach-IsOwned : {s : Monitor} → Reach s → IsOwned s
Reach-IsOwned start = record { free = λ h i. refl; owner = λ h. absurd (cc h) }
Reach-IsOwned (later reach move) = Step-IsOwned (Reach-IsOwned reach) move

-- However many goroutines use the lock of a monitor, and in whatever order they step, no two of
-- them have it: no two checks or recoveries of a monitor overlap.
pub mutual_exclusion :
    {s : Monitor}
    → Reach s
    → (i j : ℕ) → has_lock (s.at i) ≡ true
    → has_lock (s.at j) ≡ true
    → i ≡ j
mutual_exclusion {s} reach i j in_i in_j = elim (Bool-cases s.full) [
  | inr free ↦ absurd (cc ((Reach-IsOwned reach).free free i, in_i))
  | inl full ↦
      let (o, has_it, only) = (Reach-IsOwned reach).owner full in only i in_i ∙ sym (only j in_j)
]

-- A goroutine that has the lock can make a step.
moves :
    (full : Bool) (p : Phase)
    → full ≡ true
    → has_lock p ≡ true
    → (full' : Bool) × (p' : Phase) × Move full p full' p'
moves full outside h k = absurd (cc k)
moves full waiting h k = absurd (cc k)
moves full holding h k = (full, running, begin)
moves full running h k = (full, leaving, finish)
moves true leaving h k = (false, outside, release)
moves false leaving h k = absurd (cc h)

-- In every state that is reached, a goroutine that waits for the lock can take it, or another one
-- has it and can make a step: the deferred receive never blocks.
pub lock_live :
    {s : Monitor}
    → Reach s
    → (i : ℕ) → s.at i ≡ waiting
    → Move s.full (s.at i) true holding
      ⊎ ((o : ℕ) × (has_lock (s.at o) ≡ true)
          × ((full : Bool) × (p : Phase) × Move s.full (s.at o) full p))
lock_live {s} reach i waits = elim (Bool-cases s.full) [
  | inr free ↦ inl (
      subst (λ (b : Bool). Move b (s.at i) true holding) (sym free)
        (subst (λ (p : Phase). Move false p true holding) (sym waits) take))
  | inl full ↦
      let (o, has_it, only) = (Reach-IsOwned reach).owner full in
      inr (o, has_it, moves s.full (s.at o) full has_it)
]

-- Every later call of `monitorLock` for a monitor gives the channel that the first one gave.
pub monitor_lock-same :
    (id : String) (fresh fresh' : ℕ) (locks : Dict ℕ)
    → (monitor_lock id fresh' (monitor_lock id fresh locks).1).0 ≡ (monitor_lock id fresh locks).0
unfolding monitor_lock
monitor_lock-same id fresh fresh' locks = elim (Option-cases (lookup id locks)) [
  | inl new ↦ rw (new, lookup-insert_self id fresh locks) refl
  | inr (lock, old) ↦ rw (old, old) refl
]
