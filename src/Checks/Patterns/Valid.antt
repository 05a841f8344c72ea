-- ===== src/Checks/Patterns/Valid.antt =====
-- The patterns of a validated configuration (internal/config/validate.go) in
-- internal/checks/checks.go.
use rpi_procmon.Base.{String, ◌≡◌, refl, true, List, [], ◌∷◌, ◌++◌, none, Bool-cases, inl, inr}
use rpi_procmon.Config.Types.{CheckConfig}
use rpi_procmon.Config.Validate.{Parsers, validate_check, validate_check-parts, bad_pattern?}
use rpi_procmon.Checks.Patterns.{Regexp, compile_all}

module _ (re : Regexp) (parsers : Parsers) where
  -- The validation asks the package `regexp` that the checks use.
  abbrev pub IsSameRegexp : Type 0
  IsSameRegexp = (p : String) → parsers.compiles p ≡ true → re.compile_error p ≡ none

  bad_pattern-append :
      (xs ys : List String)
      → bad_pattern? parsers (xs ++ ys) ≡ none
      → (bad_pattern? parsers xs ≡ none) × (bad_pattern? parsers ys ≡ none)
  bad_pattern-append [] ys h = (refl, h)
  bad_pattern-append (x ∷ xs) ys h = elim (Bool-cases (parsers.compiles x)) [
    | inl ok ↦ let both = bad_pattern-append xs ys (rw ok at h) in (rw ok both.0, both.1)
    | inr bad ↦ absurd (cc (rw bad at h))
  ]

  compile_all-good :
      IsSameRegexp → (xs : List String) → bad_pattern? parsers xs ≡ none → compile_all re xs ≡ none
  unfolding compile_all
  compile_all-good same [] h = refl
  compile_all-good same (x ∷ xs) h = elim (Bool-cases (parsers.compiles x)) [
    | inl ok ↦ rw (same x ok, compile_all) (compile_all-good same xs (rw ok at h))
    | inr bad ↦ absurd (cc (rw bad at h))
  ]

-- Every list of patterns of a check that validation has accepted compiles, if a pattern that the
-- validation could compile compiles again.
pub compile_all-validate_check :
    (re : Regexp) (parsers : Parsers) (id : String) (check : CheckConfig)
    → IsSameRegexp re parsers
    → validate_check parsers id check ≡ none
    → (compile_all re check.patterns ≡ none)
      × (compile_all re check.success_patterns ≡ none)
      × (compile_all re check.expected_output_patterns ≡ none)
      × (compile_all re check.forbidden_output_patterns ≡ none)
compile_all-validate_check re parsers id check same valid =
    let good = (validate_check-parts parsers id check valid).1 in
    let all =
      bad_pattern-append re parsers
        (check.patterns ++ check.success_patterns ++ check.expected_output_patterns)
        check.forbidden_output_patterns good in
    let three =
      bad_pattern-append re parsers (check.patterns ++ check.success_patterns)
        check.expected_output_patterns all.0 in
    let two = bad_pattern-append re parsers check.patterns check.success_patterns three.0 in
    (
      compile_all-good re parsers same check.patterns two.0,
      compile_all-good re parsers same check.success_patterns two.1,
      compile_all-good re parsers same check.expected_output_patterns three.1,
      compile_all-good re parsers same check.forbidden_output_patterns all.1,
    )
