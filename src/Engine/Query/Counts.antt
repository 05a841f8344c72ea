-- ===== src/Engine/Query/Counts.antt =====
-- The monitors and the counters of `Snapshot`.
use rpi_procmon.Base.{
  ℕ, ◌+◌, ◌≡◌, refl, ap, ◌∙◌, Option, none, some, List, [], ◌∷◌, ◌++◌, arith, length, ℤ, String,
  Bool, false, ◌==◌, ◌||◌, if◌then◌else◌,
}
use rpi_procmon.Engine.Query.Statuses.{by_status}
use mathlib.Core.List.{append-nil, append_assoc}
use rpi_procmon.Config.Types.{MonitorConfig}
use rpi_procmon.State.{MonitorRuntimeState, ProcmonStatus}
use rpi_procmon.Engine.Env.{Shared, Manager}
use rpi_procmon.Engine.Monitor.{entry}
use rpi_procmon.Engine.Query.{
  Tally, Case, healthy, recovering, degraded, failed, disabled, default, case_of, count_case,
  count_status, tally_one, tally_loop, empty_tally, snapshot,
}

abbrev or_cons : Option MonitorRuntimeState → List MonitorRuntimeState → List MonitorRuntimeState
or_cons none sts = sts
or_cons (some st) sts = st ∷ sts

-- The states of the configured monitors, in the order of the configuration.
abbrev pub states_of : List MonitorConfig → Shared → List MonitorRuntimeState
states_of [] sh = []
states_of (mon ∷ mons) sh = or_cons (entry mon.id sh) (states_of mons sh)

abbrev once : Bool → ℕ
once b = if b then 1 else 0

-- The number of states whose status passes the test.
abbrev pub count_if : (String → Bool) → List MonitorRuntimeState → ℕ
count_if test [] = 0
count_if test (st ∷ sts) = once (test st.status) + count_if test sts

-- The statuses of a case; one that the `switch` does not foresee is counted nowhere.
abbrev test_of : Case → String → Bool
test_of healthy status = status == "healthy"
test_of recovering status = status == "recovering" || status == "checking"
test_of degraded status = status == "degraded"
test_of failed status = status == "failed"
test_of disabled status = status == "disabled"
test_of default status = false

abbrev hits : Case → List MonitorRuntimeState → ℕ
hits c sts = count_if (test_of c) sts

abbrev hit : Case → Case → ℕ
hit healthy healthy = 1
hit recovering recovering = 1
hit degraded degraded = 1
hit failed failed = 1
hit disabled disabled = 1
hit _ _ = 0

hit_default : (d : Case) → hit Case.default d ≡ 0
hit_default d = ground arith

hit-case_of : (c : Case) (status : String) → hit c (case_of status) ≡ once (test_of c status)
unfolding case_of
hit-case_of healthy status =
    by_status (λ status. hit Case.healthy (case_of status) ≡ once (test_of Case.healthy status))
      refl refl refl refl refl refl (λ status (a, b, c, d, e, f). rw (a, b, c, d, e, f) refl) status
hit-case_of recovering status =
    by_status
      (λ status. hit Case.recovering (case_of status) ≡ once (test_of Case.recovering status)) refl
      refl refl refl refl refl (λ status (a, b, c, d, e, f). rw (a, b, c, d, e, f) refl) status
hit-case_of degraded status =
    by_status (λ status. hit Case.degraded (case_of status) ≡ once (test_of Case.degraded status))
      refl refl refl refl refl refl (λ status (a, b, c, d, e, f). rw (a, b, c, d, e, f) refl) status
hit-case_of failed status =
    by_status (λ status. hit Case.failed (case_of status) ≡ once (test_of Case.failed status)) refl
      refl refl refl refl refl (λ status (a, b, c, d, e, f). rw (a, b, c, d, e, f) refl) status
hit-case_of disabled status =
    by_status (λ status. hit Case.disabled (case_of status) ≡ once (test_of Case.disabled status))
      refl refl refl refl refl refl (λ status (a, b, c, d, e, f). rw (a, b, c, d, e, f) refl) status
hit-case_of default status = hit_default (case_of status)

-- The counter of a case.
abbrev counter : Case → Tally → ℕ
counter healthy t = t.healthy
counter recovering t = t.recovering
counter degraded t = t.degraded
counter failed t = t.failed
counter disabled t = t.disabled
counter default t = 0

counter-count_case : (c d : Case) (t : Tally) → counter c (count_case d t) ≡ counter c t + hit c d
unfolding count_case
counter-count_case c d t = ground arith

monitors-count_case : (d : Case) (t : Tally) → (count_case d t).monitors ≡ t.monitors
unfolding count_case
monitors-count_case healthy t = refl
monitors-count_case _ t = refl

module _ (sh : Shared) (c : Case) where
  counter-tally_one :
      (o : Option MonitorRuntimeState) (sts : List MonitorRuntimeState) (t : Tally)
      → counter c (tally_one o t) + hits c sts ≡ counter c t + hits c (or_cons o sts)
  unfolding count_status
  counter-tally_one none sts t = refl
  counter-tally_one (some st) sts t =
      let t' : Tally = record t { monitors = t.monitors ++ st ∷ [] } in
      let same : counter c t' ≡ counter c t = counter_monitors c in
      omega (arith, counter-count_case c (case_of st.status) t', hit-case_of c st.status, same)
    where
      counter_monitors :
          (d : Case) → counter d (record t { monitors = t.monitors ++ st ∷ [] }) ≡ counter d t
      counter_monitors healthy = refl
      counter_monitors _ = refl

  counter-tally_loop :
      (mons : List MonitorConfig) (t : Tally)
      → counter c (tally_loop mons sh t) ≡ counter c t + hits c (states_of mons sh)
  unfolding tally_loop
  counter-tally_loop [] t = omega arith
  counter-tally_loop (mon ∷ mons) t =
      let o = entry mon.id sh in
      counter-tally_loop mons (tally_one o t) ∙ counter-tally_one o (states_of mons sh) t

monitors-tally_one :
    (o : Option MonitorRuntimeState) (sts : List MonitorRuntimeState) (t : Tally)
    → (tally_one o t).monitors ++ sts ≡ t.monitors ++ or_cons o sts
unfolding count_status
monitors-tally_one none sts t = refl
monitors-tally_one (some st) sts t =
    rw (monitors-count_case (case_of st.status) _) (append_assoc t.monitors (st ∷ []) sts)

monitors-tally_loop :
    (mons : List MonitorConfig) (sh : Shared) (t : Tally)
    → (tally_loop mons sh t).monitors ≡ t.monitors ++ states_of mons sh
unfolding tally_loop
monitors-tally_loop [] sh t = rw append-nil
monitors-tally_loop (mon ∷ mons) sh t =
    let o = entry mon.id sh in
    monitors-tally_loop mons sh (tally_one o t) ∙ monitors-tally_one o (states_of mons sh) t

-- What a snapshot says of the monitors with the states `sts`.
pub record IsCounted (s : ProcmonStatus) (sts : List MonitorRuntimeState) : Type 0 where
  pub monitors : s.monitors ≡ sts
  pub total : s.monitor_count ≡ length sts
  pub healthy : s.healthy_count ≡ count_if (λ st. st == "healthy") sts
  pub recovering : s.recovering_count ≡ count_if (λ st. st == "recovering" || st == "checking") sts
  pub degraded : s.degraded_count ≡ count_if (λ st. st == "degraded") sts
  pub failed : s.failed_count ≡ count_if (λ st. st == "failed") sts
  pub disabled : s.disabled_count ≡ count_if (λ st. st == "disabled") sts

-- A snapshot lists the states of the configured monitors in the order of the configuration, those
-- without a state left out, and each of its counters is the number of these states with its status;
-- a monitor that is being checked is counted with those that recover, and one with any other status
-- nowhere.
pub snapshot-IsCounted :
    (m : Manager) (at : ℤ) (sh : Shared)
    → IsCounted (snapshot m at sh) (states_of m.cfg.monitors sh)
unfolding snapshot
snapshot-IsCounted m at sh = record {
  monitors = listed;
  total = ap length listed;
  healthy = of Case.healthy;
  recovering = of Case.recovering;
  degraded = of Case.degraded;
  failed = of Case.failed;
  disabled = of Case.disabled;
}
  where
    listed : (tally_loop m.cfg.monitors sh empty_tally).monitors ≡ states_of m.cfg.monitors sh
    listed = monitors-tally_loop m.cfg.monitors sh empty_tally

    of :
        (c : Case)
        → counter c (tally_loop m.cfg.monitors sh empty_tally)
          ≡ hits c (states_of m.cfg.monitors sh)
    of c = counter-tally_loop sh c m.cfg.monitors empty_tally ∙ zero_counter c
      where
        zero_counter :
            (d : Case)
            → counter d empty_tally + hits d (states_of m.cfg.monitors sh)
              ≡ hits d (states_of m.cfg.monitors sh)
        zero_counter healthy = omega arith
        zero_counter _ = omega arith
