-- ===== src/Engine/Query/Overall.antt =====
-- The overall status of `Snapshot`, and its counters.
use rpi_procmon.Base.{
  ℕ, zero, suc, ◌≤◌, max, String, ◌≡◌, refl, Option, none, some, List, [], ◌∷◌, arith, ℤ, ap, ◌∙◌,
  ◌++◌, ◌==◌, if◌then◌else◌,
}
use rpi_procmon.Engine.Query.Statuses.{by_status}
use rpi_procmon.Config.Types.{MonitorConfig}
use rpi_procmon.State.{MonitorRuntimeState}
use rpi_procmon.Engine.Env.{Shared, Manager}
use rpi_procmon.Engine.Monitor.{entry}
use rpi_procmon.Engine.Query.{
  Tally, Case, healthy, recovering, degraded, failed, disabled, default, case_of, count_case,
  count_status, tally_one, tally_loop, empty_tally, snapshot,
}

-- How bad a status is: a disabled monitor counts as a healthy one, one that is checked as one that
-- recovers, and an unforeseen status stands between a recovery under way and a degraded monitor.
abbrev pub rank_of : String → ℕ
rank_of status =
    if status == "failed"
    then 4
    else if status == "degraded"
    then 3
    else if status == "checking"
    then 1
    else if status == "recovering"
    then 1
    else if status == "healthy"
    then 0
    else if status == "disabled"
    then 0
    else 2

abbrev rank : Case → ℕ
rank healthy = 0
rank disabled = 0
rank recovering = 1
rank default = 2
rank degraded = 3
rank failed = 4

rank-case_of : (status : String) → rank (case_of status) ≡ rank_of status
unfolding case_of
rank-case_of =
    by_status (λ status. rank (case_of status) ≡ rank_of status) refl refl refl refl refl refl
      (λ status (a, b, c, d, e, f). rw (a, b, c, d, e, f) refl)

abbrev pub status_of : ℕ → String
status_of zero = "healthy"
status_of (suc zero) = "recovering"
status_of (suc (suc zero)) = "unknown"
status_of (suc (suc (suc zero))) = "degraded"
status_of (suc (suc (suc (suc n)))) = "failed"

abbrev rank_at : Option MonitorRuntimeState → ℕ
rank_at none = 0
rank_at (some st) = rank_of st.status

-- The worst rank among the configured monitors that have a state.
abbrev pub worst : List MonitorConfig → Shared → ℕ
worst [] sh = 0
worst (mon ∷ mons) sh = max (rank_at (entry mon.id sh)) (worst mons sh)

count_case-status_of :
    (n : ℕ) (c : Case) (t : Tally)
    → n ≤ 4
    → (count_case c (record t { status = status_of n })).status ≡ status_of (max n (rank c))
unfolding count_case
count_case-status_of zero healthy t b = refl
count_case-status_of zero _ t b = refl
count_case-status_of (suc zero) healthy t b = refl
count_case-status_of (suc zero) _ t b = refl
count_case-status_of (suc (suc zero)) healthy t b = refl
count_case-status_of (suc (suc zero)) _ t b = refl
count_case-status_of (suc (suc (suc zero))) healthy t b = refl
count_case-status_of (suc (suc (suc zero))) _ t b = refl
count_case-status_of (suc (suc (suc (suc zero)))) healthy t b = refl
count_case-status_of (suc (suc (suc (suc zero)))) _ t b = refl
count_case-status_of (suc (suc (suc (suc (suc n))))) c t b = absurd (omega arith)

count_case-status :
    (n : ℕ) (c : Case) (t : Tally)
    → n ≤ 4
    → t.status ≡ status_of n
    → (count_case c t).status ≡ status_of (max n (rank c))
count_case-status n c t b h =
    ap (λ s. (count_case c (record t { status = s })).status) h ∙ count_case-status_of n c t b

rank_at-le : (o : Option MonitorRuntimeState) → rank_at o ≤ 4
rank_at-le none = omega arith
rank_at-le (some st) = ground arith

tally_one-status :
    (n : ℕ) (o : Option MonitorRuntimeState) (t : Tally)
    → n ≤ 4
    → t.status ≡ status_of n
    → (tally_one o t).status ≡ status_of (max n (rank_at o))
unfolding count_status
tally_one-status n none t b h = let e : max n 0 ≡ n = omega arith in rw e h
tally_one-status n (some st) t b h =
    count_case-status n (case_of st.status) (record t { monitors = t.monitors ++ st ∷ [] }) b h
    ∙ ap (λ (k : ℕ). status_of (max n k)) (rank-case_of st.status)

max_assoc_status : (a b c : ℕ) → status_of (max (max a b) c) ≡ status_of (max a (max b c))
max_assoc_status a b c = let e : max (max a b) c ≡ max a (max b c) = omega arith in ap status_of e

tally_loop-status :
    (mons : List MonitorConfig) (sh : Shared) (n : ℕ) (t : Tally)
    → n ≤ 4
    → t.status ≡ status_of n
    → (tally_loop mons sh t).status ≡ status_of (max n (worst mons sh))
unfolding tally_loop
tally_loop-status [] sh n t b h = let e : max n 0 ≡ n = omega arith in rw e h
tally_loop-status (mon ∷ mons) sh n t b h =
    let o = entry mon.id sh in
    tally_loop-status mons sh (max n (rank_at o)) (tally_one o t) (omega (arith, rank_at-le o))
      (tally_one-status n o t b h)
    ∙ max_assoc_status n (rank_at o) (worst mons sh)

-- The overall status of a snapshot is that of the worst configured monitor with a state: failed
-- before degraded, before an unforeseen status, before recovering or checking, before healthy or
-- disabled. So it does not depend on the order of the monitors.
pub snapshot-worst :
    (m : Manager) (at : ℤ) (sh : Shared)
    → (snapshot m at sh).overall_status ≡ status_of (worst m.cfg.monitors sh)
unfolding snapshot
snapshot-worst m at sh =
    tally_loop-status m.cfg.monitors sh 0 empty_tally (omega arith) refl
    ∙ ap status_of (omega arith)
