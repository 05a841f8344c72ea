-- ===== src/Checks/Patterns/Distinct.antt =====
-- internal/checks/checks.go: `distinctPatternCaptureGroups` collects a set.
use rpi_procmon.Base.{
  ◌≡◌, refl, sym, ap, ◌∙◌, String, Bool, true, false, ◌||◌, List, [], ◌∷◌, ◌==◌, has, IsDistinct,
  length, if◌then◌else◌, Bool-cases, inl, inr, eq_iff,
}
use rpi_procmon.Base.Text.{is_empty}
use rpi_procmon.Checks.Patterns.{Regexp, group_of, collect_groups, distinct_groups}

-- `sort.Strings` keeps the number of texts.
abbrev pub KeepsLength : Regexp → Type 0
KeepsLength re = (xs : List String) → length (re.sort xs) ≡ length xs

module _ (re : Regexp) (patterns : List String) where
  abbrev add_value : String → List String → List String
  add_value value rest = if is_empty value then rest else value ∷ rest

  -- The values that the lines have in the groups of the patterns, the empty ones left out.
  abbrev pub values : List String → List String
  values [] = []
  values (line ∷ lines) = add_value (group_of re patterns line) (values lines)

  -- These are the values of the lines, each once.
  pub record AreValues (lines different : List String) : Type 0 where
    pub distinct : IsDistinct different
    pub same : (value : String) → has different value ≡ has (values lines) value

  -- What the loop makes of the set so far.
  record AreAdded (lines set different : List String) : Type 0 where
    distinct : IsDistinct different
    same : (value : String) → has different value ≡ has set value || has (values lines) value

  or_false : (a : Bool) → a || false ≡ a
  or_false true = refl
  or_false false = refl

  -- A member put in front again.
  has_again :
      (set rest : List String) (v k : String)
      → has set v ≡ true
      → has set k || has rest k ≡ has set k || (v == k || has rest k)
  has_again set rest v k member = elim (Bool-cases (v == k)) [
    | inr other ↦ rw other refl
    | inl same ↦
        let here : has set k ≡ true = sym (ap (has set) ((eq_iff v k).0 same)) ∙ member in
        rw here refl
  ]

  or_swap : (a b c : Bool) → (a || b) || c ≡ b || (a || c)
  or_swap true true c = refl
  or_swap true false c = refl
  or_swap false b c = refl

  collect_groups-AreAdded :
      (lines set : List String)
      → IsDistinct set
      → AreAdded lines set (collect_groups re patterns lines set)
  unfolding collect_groups
  collect_groups-AreAdded [] set distinct = record {
    distinct = distinct;
    same = λ value. sym (or_false (has set value));
  }
  collect_groups-AreAdded (line ∷ lines) set distinct =
      let v = group_of re patterns line in
      elim (Bool-cases (is_empty v)) [
        | inl empty ↦
            let rest = collect_groups-AreAdded lines set distinct in
            let kept : values lines ≡ values (line ∷ lines) = rw empty refl in
            rw empty (record {
              distinct = rest.distinct;
              same = λ k. rest.same k ∙ ap (λ (vs : List String). has set k || has vs k) kept;
            })
        | inr text ↦
            let more : v ∷ values lines ≡ values (line ∷ lines) = rw text refl in
            elim (Bool-cases (has set v)) [
              | inl member ↦
                  let rest = collect_groups-AreAdded lines set distinct in
                  rw (text, member)
                    (record {
                      distinct = rest.distinct;
                      same = λ k.
                          rest.same k
                          ∙ has_again set (values lines) v k member
                          ∙ ap (λ (vs : List String). has set k || has vs k) more;
                    })
              | inr new ↦
                  let rest = collect_groups-AreAdded lines (v ∷ set) (new, distinct) in
                  rw (text, new)
                    (record {
                      distinct = rest.distinct;
                      same = λ k.
                          rest.same k
                          ∙ or_swap (v == k) (has set k) (has (values lines) k)
                          ∙ ap (λ (vs : List String). has set k || has vs k) more;
                    })
            ]
      ]

  pub collect_groups-AreValues :
      (lines : List String) → AreValues lines (collect_groups re patterns lines [])
  collect_groups-AreValues lines =
      let added = collect_groups-AreAdded lines [] tt in
      record { distinct = added.distinct; same = added.same }

  pub length-distinct_groups :
      (lines : List String)
      → KeepsLength re
      → length (distinct_groups re patterns lines) ≡ length (collect_groups re patterns lines [])
  unfolding distinct_groups
  length-distinct_groups lines keeps = keeps (collect_groups re patterns lines [])
