-- ===== src/Engine/Recover/Results.antt =====
-- internal/engine/manager.go: what `executeRecovery` returns, by the actions that it ran.
use rpi_procmon.Base.{
  String, ◌≡◌, refl, sym, ap, ◌∙◌, Bool, true, false, ◌||◌, Option, none, some, List, [], ◌∷◌, ◌++◌,
  ◌==◌,
}
use mathlib.Core.List.{append-nil, append_assoc}
use rpi_procmon.Config.Types.{ActionConfig}
use rpi_procmon.State.{CheckResult, ActionResult}
use rpi_procmon.Engine.Run.{Outcome, interrupted, completed, is_nil}
use rpi_procmon.Engine.Recover.Quiet.{Ran}

-- The results are those of the first actions, and each but the last allows to go on: its action is
-- a recheck, or has succeeded.
abbrev pub AreResults : List ActionConfig → List ActionResult → Type 0
AreResults actions [] = Unit
AreResults [] (r ∷ rs) = ⊥
AreResults (a ∷ as') (r ∷ rs) = elim rs [
  | [] ↦ Unit
  | r' ∷ rs' ↦ ((a.kind == "recheck" || r.success) ≡ true) × AreResults as' rs
]

abbrev pub is_none_error : Option String → Bool
is_none_error none = true
is_none_error (some e) = false

-- The first actions, each with its result.
abbrev pub pairs : List ActionConfig → List ActionResult → List Ran
pairs actions [] = []
pairs [] (r ∷ rs) = []
pairs (a ∷ as') (r ∷ rs) = (a, r) ∷ pairs as' rs

-- What a recovery is that had the results `before` and has then run `ran`.
pub record IsRun (actions : List ActionConfig) (before : List ActionResult) (ran : List Ran)
    (outcome : Outcome) : Type 0 where
  pub results : List ActionResult
  pub extends : outcome.actions ≡ before ++ results
  pub in_order : AreResults actions results
  pub each_once : ran ≡ pairs actions results
  pub ended : outcome.completed ≡ is_none_error outcome.error
  pub judged : outcome.completed ≡ true → outcome.recovered ≡ is_nil outcome.reasons
  pub given_up : outcome.completed ≡ false → outcome.recovered ≡ false

-- An outcome at once, with the results of no further action, or of one.
pub IsRun-interrupted :
    (actions : List ActionConfig) (before : List ActionResult) (e : String)
    → IsRun actions before [] (interrupted before e)
IsRun-interrupted actions before e = record {
  results = [];
  extends = sym (append-nil before);
  in_order = tt;
  each_once = refl;
  ended = refl;
  judged = λ h. cc;
  given_up = λ h. refl;
}

pub IsRun-completed :
    (actions : List ActionConfig) (before : List ActionResult) (recovered : Bool)
    (checks : List CheckResult) (reasons : List String)
    → recovered ≡ is_nil reasons
    → IsRun actions before [] (completed before recovered checks reasons)
IsRun-completed actions before recovered checks reasons h = record {
  results = [];
  extends = sym (append-nil before);
  in_order = tt;
  each_once = refl;
  ended = refl;
  judged = λ c. h;
  given_up = λ c. cc;
}

AreResults-cons :
    (a : ActionConfig) (actions : List ActionConfig) (r : ActionResult) (rs : List ActionResult)
    → (a.kind == "recheck" || r.success) ≡ true
    → AreResults actions rs
    → AreResults (a ∷ actions) (r ∷ rs)
AreResults-cons a actions r [] go_on h = tt
AreResults-cons a actions r (r' ∷ rs) go_on h = (go_on, h)

-- One action more in front.
pub IsRun-cons :
    (a : ActionConfig) (actions : List ActionConfig) (before : List ActionResult) (r : ActionResult)
    (ran : List Ran) (outcome : Outcome)
    → (a.kind == "recheck" || r.success) ≡ true
    → IsRun actions (before ++ r ∷ []) ran outcome
    → IsRun (a ∷ actions) before ((a, r) ∷ ran) outcome
IsRun-cons a actions before r ran outcome go_on run = record {
  results = r ∷ run.results;
  extends = run.extends ∙ append_assoc before (r ∷ []) run.results;
  in_order = AreResults-cons a actions r run.results go_on run.in_order;
  each_once = ap (λ (rest : List Ran). (a, r) ∷ rest) run.each_once;
  ended = run.ended;
  judged = run.judged;
  given_up = run.given_up;
}

-- The last action that is run.
pub IsRun-last :
    (a : ActionConfig) (actions : List ActionConfig) (before : List ActionResult) (r : ActionResult)
    (ran : List Ran) (outcome : Outcome)
    → IsRun [] (before ++ r ∷ []) ran outcome
    → IsRun (a ∷ actions) before ((a, r) ∷ ran) outcome
IsRun-last a actions before r ran outcome run = record {
  results = r ∷ run.results;
  extends = run.extends ∙ append_assoc before (r ∷ []) run.results;
  in_order = one run.results run.in_order;
  each_once =
      ap (λ (rest : List Ran). (a, r) ∷ rest) (run.each_once ∙ no_more run.results run.in_order);
  ended = run.ended;
  judged = run.judged;
  given_up = run.given_up;
}
  where
    one : (rs : List ActionResult) → AreResults [] rs → AreResults (a ∷ actions) (r ∷ rs)
    one [] h = tt
    one (r' ∷ rs) h = absurd h

    no_more : (rs : List ActionResult) → AreResults [] rs → pairs [] rs ≡ pairs actions rs
    no_more [] h = refl
    no_more (r' ∷ rs) h = absurd h
