-- ===== src/Checks/Patterns/Counts.antt =====
-- internal/checks/checks.go: what `countPatternMatches` and `matchPatterns` find.
use rpi_procmon.Base.{
  ℕ, ◌+◌, ◌≡◌, refl, sym, ap, ◌∙◌, String, Bool, true, false, ◌||◌, ◌&&◌, Option, none, some, List,
  [], ◌∷◌, ◌==◌, if◌then◌else◌, has, select, length, Bool-cases, Option-cases, inl, inr, arith,
}
use rpi_procmon.Checks.Patterns.{
  Regexp, compile_all, first_match, count_lines, count_matches, match_every, match_some, is_none,
  match_patterns,
}

module _ (re : Regexp) where
  -- Does some pattern match the line?
  abbrev pub any_matches : List String → String → Bool
  any_matches [] line = false
  any_matches (p ∷ ps) line = re.matches p line || any_matches ps line

  abbrev pub all_match : List String → String → Bool
  all_match [] line = true
  all_match (p ∷ ps) line = re.matches p line && all_match ps line

  abbrev is_text : Option String → String → Bool
  is_text none p = false
  is_text (some q) p = q == p

  -- Is the pattern the first one that matches, at some line?
  abbrev pub first_somewhere : List String → List String → String → Bool
  first_somewhere patterns [] p = false
  first_somewhere patterns (line ∷ lines) p =
      is_text (first_match re patterns line) p || first_somewhere patterns lines p

  abbrev is_match : Option String → Bool
  is_match none = false
  is_match (some p) = true

  first_match-any :
      (ps : List String) (line : String) → is_match (first_match re ps line) ≡ any_matches ps line
  unfolding first_match
  first_match-any [] line = refl
  first_match-any (p ∷ ps) line = elim (Bool-cases (re.matches p line)) [
    | inl hit ↦ rw hit refl
    | inr miss ↦ rw miss (first_match-any ps line)
  ]

  -- The loop adds to the count one for each line with a match, and to the set its first pattern.
  count_lines-count :
      (ps lines : List String) (n : ℕ) (set : List String)
      → (count_lines re ps lines (n, set)).0 ≡ n + length (select (any_matches ps) lines)
  unfolding count_lines
  count_lines-count ps [] n set = omega arith
  count_lines-count ps (line ∷ lines) n set = elim (Option-cases (first_match re ps line)) [
    | inl e ↦
        let miss : any_matches ps line ≡ false = sym (first_match-any ps line) ∙ ap is_match e in
        rw (e, count_lines) (rw miss (count_lines-count ps lines n set))
    | inr (p, e) ↦
        let hit : any_matches ps line ≡ true = sym (first_match-any ps line) ∙ ap is_match e in
        rw (e, count_lines) (rw hit (omega (arith, count_lines-count ps lines (n + 1) (p ∷ set))))
  ]

  count_lines-set :
      (ps lines : List String) (n : ℕ) (set : List String) (q : String)
      → has (count_lines re ps lines (n, set)).1 q ≡ (has set q || first_somewhere ps lines q)
  unfolding count_lines
  count_lines-set ps [] n set q = ground arith
  count_lines-set ps (line ∷ lines) n set q = elim (Option-cases (first_match re ps line)) [
    | inl e ↦ rw (e, count_lines) (count_lines-set ps lines n set q)
    | inr (p, e) ↦
        rw (e, count_lines) (ground (arith, count_lines-set ps lines (n + 1) (p ∷ set) q))
  ]

  select-same :
      (f g : String → Bool) (xs : List String)
      → ((x : String) → f x ≡ g x)
      → select f xs ≡ select g xs
  select-same f g [] h = refl
  select-same f g (x ∷ xs) h = rw (h x, select-same f g xs h) refl

  match_every-all :
      (ps : List String) (output : String)
      → compile_all re ps ≡ none
      → match_every re ps output ≡ (all_match ps output, none)
  unfolding match_every compile_all
  match_every-all [] output h = refl
  match_every-all (p ∷ ps) output h = elim (Option-cases (re.compile_error p)) [
    | inl ok ↦
        rw (ok, match_every)
          (elim (Bool-cases (re.matches p output)) [
            | inl hit ↦
                rw (hit, match_every) (match_every-all ps output (rw (ok, compile_all) at h))
            | inr miss ↦ rw miss refl
          ])
    | inr (e, bad) ↦ absurd (cc (rw (bad, compile_all) at h))
  ]

  match_some-any :
      (ps : List String) (output : String)
      → compile_all re ps ≡ none
      → match_some re ps output ≡ (any_matches ps output, none)
  unfolding match_some compile_all
  match_some-any [] output h = refl
  match_some-any (p ∷ ps) output h = elim (Option-cases (re.compile_error p)) [
    | inl ok ↦
        rw (ok, match_some)
          (elim (Bool-cases (re.matches p output)) [
            | inl hit ↦ rw hit refl
            | inr miss ↦ rw miss (match_some-any ps output (rw (ok, compile_all) at h))
          ])
    | inr (e, bad) ↦ absurd (cc (rw (bad, compile_all) at h))
  ]

-- `countPatternMatches` counts the lines that some pattern matches, each once, and names the
-- patterns that are the first to match some line, in the order of the patterns.
pub count_matches-lines :
    (re : Regexp) (patterns lines : List String)
    → count_matches re patterns lines ≡ (
      length (select (any_matches re patterns) lines),
      select (first_somewhere re patterns lines) patterns,
    )
unfolding count_matches
count_matches-lines re patterns lines = λ i. (
  (count_lines-count re patterns lines 0 []
        ∙ (let e : 0 + length (select (any_matches re patterns) lines)
                ≡ length (select (any_matches re patterns) lines) =
              omega arith in
            e))
      i,
  select-same re _ (first_somewhere re patterns lines) patterns
      (count_lines-set re patterns lines 0 []) i,
)

-- If all patterns compile, `matchPatterns` has no error, and says whether all of them or some of
-- them match, and yes if there are none.
pub match_patterns-decides :
    (re : Regexp) (patterns : List String) (require_all : Bool) (output : String)
    → compile_all re patterns ≡ none
    → match_patterns re patterns require_all output ≡ (
      is_none re patterns
          || (if require_all then all_match re patterns output else any_matches re patterns output),
      none,
    )
unfolding match_patterns
match_patterns-decides re [] require_all output h = refl
match_patterns-decides re (p ∷ ps) true output h = match_every-all re (p ∷ ps) output h
match_patterns-decides re (p ∷ ps) false output h = match_some-any re (p ∷ ps) output h
