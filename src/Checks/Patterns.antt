-- ===== src/Checks/Patterns.antt =====
-- internal/checks/checks.go: the patterns over the lines of a log and over an output.
pub mod Distinct
pub mod Counts
pub mod Valid
use rpi_procmon.Base.{
  ℕ, ◌+◌, String, Bool, true, false, not, ◌||◌, ◌&&◌, Option, none, some, List, [], ◌∷◌, ◌++◌, ◌==◌,
  if◌then◌else◌, has, select,
}
use rpi_procmon.Base.Text.{trim_space, is_empty, concat}

-- The package `regexp`: whether a pattern compiles, with the text of the error, whether it matches
-- a text, and the first submatch of `FindStringSubmatch`, if the pattern matches and has a group.
-- `lines` is what a `bufio.Scanner` gives of a text, `sort` is `sort.Strings`.
pub record Regexp : Type 0 where
  pub compile_error : String → Option String
  pub matches : String → String → Bool
  pub first_group : String → String → Option String
  pub lines : String → List String
  pub sort : List String → List String
  pub quote : String → String

module _ (re : Regexp) where
  -- The first error of compiling the patterns in their order.
  unfoldable pub compile_all : List String → Option String
  compile_all [] = none
  compile_all (p ∷ ps) = elim (re.compile_error p) [
    | some e ↦ some (concat ("invalid pattern " ∷ re.quote p ∷ ": " ∷ e ∷ []))
    | none ↦ compile_all ps
  ]

  -- The first pattern that matches the line.
  unfoldable pub first_match : List String → String → Option String
  first_match [] line = none
  first_match (p ∷ ps) line =
      let rest = first_match ps line in if re.matches p line then some p else rest

  abbrev pub counted : Option String → ℕ × List String → ℕ × List String
  counted none (count, matched) = (count, matched)
  counted (some p) (count, matched) = (count + 1, p ∷ matched)

  -- The loop of `countPatternMatches` over the lines; the set is the list of what was put into it.
  unfoldable pub count_lines : List String → List String → ℕ × List String → ℕ × List String
  unfolding first_match
  count_lines patterns [] acc = acc
  count_lines patterns (line ∷ lines) acc =
      count_lines patterns lines (counted (first_match patterns line) acc)

  -- `countPatternMatches` on the lines, once all patterns compile.
  unfoldable pub count_matches : List String → List String → ℕ × List String
  unfolding count_lines
  count_matches patterns lines =
      let (count, matched) = count_lines patterns lines (0, []) in
      (count, select (has matched) patterns)

  -- The value that a line puts into the set of `distinctPatternCaptureGroups`: that of the first
  -- pattern with a group there, trimmed.
  unfoldable pub group_of : List String → String → String
  group_of [] line = ""
  group_of (p ∷ ps) line = elim (re.first_group p line) [
    | none ↦ group_of ps line
    | some value ↦ trim_space value
  ]

  -- The loop over the lines.
  unfoldable pub collect_groups : List String → List String → List String → List String
  unfolding group_of
  collect_groups patterns [] set = set
  collect_groups patterns (line ∷ lines) set =
      let value = group_of patterns line in
      collect_groups patterns lines
        (if is_empty value then set else if has set value then set else value ∷ set)

  -- `distinctPatternCaptureGroups` on the lines, once all patterns compile.
  unfoldable pub distinct_groups : List String → List String → List String
  unfolding collect_groups
  distinct_groups patterns lines = re.sort (collect_groups patterns lines [])

  -- The two branches of `matchPatterns`; the patterns are compiled on the way.
  unfoldable pub match_every : List String → String → Bool × Option String
  match_every [] output = (true, none)
  match_every (p ∷ ps) output = elim (re.compile_error p) [
    | some e ↦ (false, some (concat ("invalid pattern " ∷ re.quote p ∷ ": " ∷ e ∷ [])))
    | none ↦ elim (re.matches p output) [ true ↦ match_every ps output | false ↦ (false, none) ]
  ]

  unfoldable pub match_some : List String → String → Bool × Option String
  match_some [] output = (false, none)
  match_some (p ∷ ps) output = elim (re.compile_error p) [
    | some e ↦ (false, some (concat ("invalid pattern " ∷ re.quote p ∷ ": " ∷ e ∷ [])))
    | none ↦ elim (re.matches p output) [ true ↦ (true, none) | false ↦ match_some ps output ]
  ]

  abbrev pub is_none : List String → Bool
  is_none [] = true
  is_none (p ∷ ps) = false

  -- `matchPatterns`, with the patterns first.
  unfoldable pub match_patterns : List String → Bool → String → Bool × Option String
  unfolding match_every match_some
  match_patterns patterns require_all output =
      if is_none patterns
      then (true, none)
      else if require_all
      then match_every patterns output
      else match_some patterns output
