-- ===== src/Command/Shell/Word.antt =====
-- What a POSIX shell makes of a text quoted by `shellQuote` (internal/command/runner.go).
use Prim.Native.Char.{Char, code}
use Prim.Native.String.{String, [], ◌∷◌, ◌++◌}
use text.Mathlib.TextLemmas.{cons-append, nil-append, append_assoc}
use text.Mathlib.TextEquality.{Char-path}
use rpi_procmon.Base.{
  ◌≡◌, refl, ◌∙◌, ap, ◌||◌, Option, none, some, eqb, if◌then◌else◌, Bool-cases, inl, inr, arith,
}
use rpi_procmon.Command.Shell.{escaped, shell_quote}

-- How the shell takes the next character: outside quotes, within '…', or within "…".
pub data Quotes : Type 0 where
  outside single double : Quotes

abbrev pub prepend : Char → Option (String × String) → Option (String × String)
prepend c none = none
prepend c (some (word, rest)) = some (c ∷ word, rest)

-- The first word of a text and what follows it, by the quoting rules of POSIX (XCU 2.2). A
-- character that means something else to the shell is refused: outside quotes, all but a space and
-- the two quotes; within "…", the dollar, the backquote and the backslash.
unfoldable pub read_word : Quotes → String → Option (String × String)
read_word outside [] = some ([], [])
read_word outside (c ∷ s) =
    let in_single = read_word single s in
    let in_double = read_word double s in
    if eqb (code c) b'\''
    then in_single
    else if eqb (code c) b'"'
    then in_double
    else if eqb (code c) b' '
    then some ([], c ∷ s)
    else none
read_word single [] = none
read_word single (c ∷ s) =
    let after = read_word outside s in
    let more = read_word single s in if eqb (code c) b'\'' then after else prepend c more
read_word double [] = none
read_word double (c ∷ s) =
    let after = read_word outside s in
    let more = read_word double s in
    if eqb (code c) b'"'
    then after
    else if eqb (code c) b'$' || eqb (code c) b'`' || eqb (code c) b'\\'
    then none
    else prepend c more

-- The text ends, or a space follows.
abbrev pub IsEndOfWord : String → Type 0
IsEndOfWord [] = Unit
IsEndOfWord (c ∷ s) = code c ≡ b' '

read_word-end : (rest : String) → IsEndOfWord rest → read_word outside rest ≡ some ([], rest)
unfolding read_word
read_word-end [] h = refl
read_word-end (c ∷ s) h = rw h refl

quote-append : (t : String) → "'" ++ t ≡ ◌∷◌ "'" t
quote-append t = cons-append "'" [] t ∙ ap (λ u. ◌∷◌ "'" u) (nil-append t)

escape-append : (t : String) → "'\"'\"'" ++ t ≡ "'" ∷ "\"" ∷ "'" ∷ "\"" ∷ "'" ∷ t
escape-append t =
    rw
      (
        cons-append "'" "\"'\"'" t,
        cons-append "\"" "'\"'" t,
        cons-append "'" "\"'" t,
        cons-append "\"" "'" t,
        cons-append "'" "" t,
        nil-append t,
      )
      refl

read_word-escaped :
    (value rest : String)
    → IsEndOfWord rest
    → read_word single (escaped value ++ "'" ++ rest) ≡ some (value, rest)
unfolding escaped read_word
read_word-escaped [] rest h =
    rw (nil-append ("'" ++ rest), quote-append rest) (read_word-end rest h)
read_word-escaped (c ∷ s) rest h = elim (Bool-cases (eqb (code c) b'\'')) [
  | inl quote ↦ rw quote (
      rw
        (append_assoc "'\"'\"'" (escaped s) ("'" ++ rest), escape-append (escaped s ++ "'" ++ rest))
        (rw (read_word-escaped s rest h)
          (ap (λ d. some (◌∷◌ d s, rest)) (Char-path "'" c (ground arith)))))
  | inr other ↦ rw other (
      rw (cons-append c (escaped s) ("'" ++ rest))
        (rw other (rw (read_word-escaped s rest h) refl)))
]

-- The shell reads a quoted text back as one word, the text itself, whatever characters it has.
pub read_word-shell_quote :
    (value rest : String)
    → IsEndOfWord rest
    → read_word outside (shell_quote value ++ rest) ≡ some (value, rest)
unfolding shell_quote read_word
read_word-shell_quote value rest h =
    rw
      (
        append_assoc "'" (escaped value ++ "'") rest,
        append_assoc (escaped value) "'" rest,
        quote-append (escaped value ++ "'" ++ rest),
      )
      (read_word-escaped value rest h)
