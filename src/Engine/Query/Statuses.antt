-- ===== src/Engine/Query/Statuses.antt =====
-- internal/engine/manager.go: the statuses that `Snapshot` foresees.
use rpi_procmon.Base.{◌≡◌, sym, subst, String, false, inl, inr, ◌==◌, Bool-cases, eq_iff}

-- None of the statuses of the `switch`.
abbrev pub IsUnforeseen : String → Type 0
IsUnforeseen s =
    ((s == "healthy") ≡ false)
    × ((s == "recovering") ≡ false)
    × ((s == "checking") ≡ false)
    × ((s == "degraded") ≡ false)
    × ((s == "failed") ≡ false)
    × ((s == "disabled") ≡ false)

module _ (P : String → Type 0) where
  by_text : (c s : String) → P c → ((s == c) ≡ false → P s) → P s
  by_text c s one others = elim (Bool-cases (s == c)) [
    | inl same ↦ subst P (sym ((eq_iff s c).0 same)) one
    | inr other ↦ others other
  ]

  -- What holds of each status and of every unforeseen text holds of every text.
  pub by_status :
      P "healthy"
      → P "recovering"
      → P "checking"
      → P "degraded"
      → P "failed"
      → P "disabled"
      → ((s : String) → IsUnforeseen s → P s)
      → (s : String) → P s
  by_status healthy recovering checking degraded failed disabled others s =
      by_text "healthy" s healthy λ a. by_text "recovering" s recovering λ b.
        by_text "checking" s checking λ c. by_text "degraded" s degraded λ d.
          by_text "failed" s failed
            λ e. by_text "disabled" s disabled λ f. others s (a, b, c, d, e, f)
