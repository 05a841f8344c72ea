-- ===== src/Command/Output.antt =====
-- internal/command/runner.go: `boundedOutput`, which keeps no more than `maxOutputBytes` of what a
-- command writes.
use rpi_procmon.Base.{
  ℕ, zero, suc, ◌-◌, ◌≤◌, min, ◌≡◌, refl, ap, sym, ◌∙◌, Bool, true, false, List, [], ◌∷◌, ◌++◌, ltb,
  leb, if◌then◌else◌, length, take, length-take, length-append, arith, Bool-cases, inl, inr,
}
use mathlib.Core.List.{append-nil, append_assoc}

abbrev pub max_output_bytes : ℕ
max_output_bytes = 8388608

-- The buffer is the list of its bytes.
pub record BoundedOutput : Type 0 where
  pub buffer : List ℕ
  pub overflow : Bool

-- The body of `Write`, with the limit as an argument, and the number of bytes that it reports. A
-- slice at a negative place would panic; the buffer never holds more than the limit (`IsCapped`).
unfoldable pub write_upto : ℕ → List ℕ → BoundedOutput → BoundedOutput × ℕ
write_upto limit p b =
    let n = length p in
    let remaining = limit - length b.buffer in
    if ltb remaining n
    then (record { buffer = b.buffer ++ take remaining p; overflow = true }, n)
    else (record b { buffer = b.buffer ++ p }, n)

-- `Write`.
unfoldable pub write : List ℕ → BoundedOutput → BoundedOutput × ℕ
unfolding write_upto
write p b = write_upto max_output_bytes p b

-- The writes of a command, in order, on an empty buffer.
unfoldable pub write_all : List (List ℕ) → BoundedOutput → BoundedOutput
unfolding write
write_all [] b = b
write_all (p ∷ ps) b = write_all ps (write p b).0

abbrev pub no_output : BoundedOutput
no_output = record { buffer = []; overflow = false }

abbrev pub joined : List (List ℕ) → List ℕ
joined [] = []
joined (p ∷ ps) = p ++ joined ps

-- What the buffer holds once `all` has been written.
pub record IsCapped (limit : ℕ) (all : List ℕ) (b : BoundedOutput) : Type 0 where
  pub kept : b.buffer ≡ take limit all
  pub noticed : b.overflow ≡ ltb limit (length all)

pub take_all : (n : ℕ) (xs : List ℕ) → length xs ≤ n → take n xs ≡ xs
take_all zero [] h = refl
take_all zero (x ∷ xs) h = absurd (omega arith)
take_all (suc n) [] h = refl
take_all (suc n) (x ∷ xs) h = ap (λ (r : List ℕ). x ∷ r) (take_all n xs (omega arith))

take_short :
    (n : ℕ) (xs ys : List ℕ) → length xs ≤ n → take n (xs ++ ys) ≡ xs ++ take (n - length xs) ys
take_short n [] ys h = let e : n - 0 ≡ n = omega arith in rw e refl
take_short zero (x ∷ xs) ys h = absurd (omega arith)
take_short (suc n) (x ∷ xs) ys h =
    let e : suc n - suc (length xs) ≡ n - length xs = omega arith in
    rw e (ap (λ (r : List ℕ). x ∷ r) (take_short n xs ys (omega arith)))

take_long : (n : ℕ) (xs ys : List ℕ) → n ≤ length xs → take n (xs ++ ys) ≡ take n xs
take_long zero [] ys h = refl
take_long zero (x ∷ xs) ys h = refl
take_long (suc n) [] ys h = absurd (omega arith)
take_long (suc n) (x ∷ xs) ys h = ap (λ (r : List ℕ). x ∷ r) (take_long n xs ys (omega arith))

length-kept :
    (limit : ℕ) (all : List ℕ) (b : BoundedOutput)
    → IsCapped limit all b
    → length b.buffer ≡ min limit (length all)
length-kept limit all b h = rw h.kept (length-take limit all)

-- The buffer with as much of the next write as fits.
kept-append :
    (limit : ℕ) (all p : List ℕ) (b : BoundedOutput)
    → IsCapped limit all b
    → b.buffer ++ take (limit - length b.buffer) p ≡ take limit (all ++ p)
kept-append limit all p b h = elim (Bool-cases (leb (length all) limit)) [
  | inl short ↦
      rw (h.kept, take_all limit all (ground arith)) (sym (take_short limit all p (ground arith)))
  | inr long ↦
      let e : limit - length b.buffer ≡ 0 = ground (arith, length-kept limit all b h) in
      rw (e, append-nil, h.kept) (sym (take_long limit all p (ground arith)))
]

-- One write more.
write_upto-IsCapped :
    (limit : ℕ) (all p : List ℕ) (b : BoundedOutput)
    → IsCapped limit all b
    → IsCapped limit (all ++ p) (write_upto limit p b).0
unfolding write_upto
write_upto-IsCapped limit all p b h = elim (Bool-cases (ltb (limit - length b.buffer) (length p))) [
  | inl full ↦ rw full (record {
    kept = kept-append limit all p b h;
    noticed = ground (arith, length-append all p, length-kept limit all b h, h.noticed);
  })
  | inr fits ↦ rw fits (record {
    kept =
        ap (λ (q : List ℕ). b.buffer ++ q)
          (sym (take_all (limit - length b.buffer) p (ground arith)))
        ∙ kept-append limit all p b h;
    noticed = ground (arith, length-append all p, length-kept limit all b h, h.noticed);
  })
]

write_all-IsCapped :
    (ps : List (List ℕ)) (all : List ℕ) (b : BoundedOutput)
    → IsCapped max_output_bytes all b
    → IsCapped max_output_bytes (all ++ joined ps) (write_all ps b)
unfolding write_all
write_all-IsCapped [] all b h = rw append-nil h
write_all-IsCapped (p ∷ ps) all b h = rw (← append_assoc all p (joined ps)) (
    write_all-IsCapped ps (all ++ p) (write p b).0 (write_upto-IsCapped max_output_bytes all p b h))

-- After any writes the buffer holds the first `max_output_bytes` bytes of what was written, all of
-- it if it is no longer, and the overflow is noticed exactly if there was more.
pub write_all-no_output :
    (ps : List (List ℕ)) → IsCapped max_output_bytes (joined ps) (write_all ps no_output)
write_all-no_output ps = write_all-IsCapped ps [] no_output (record { kept = refl; noticed = refl })
