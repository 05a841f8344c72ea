-- ===== src/Api/Auth/Bearer.antt =====
-- internal/api/server.go: what `bearerToken` reads.
use Prim.Native.Char.{Char, code}
use Prim.Native.String.{String, [], ◌∷◌, ◌++◌}
use text.Mathlib.TextLemmas.{cons-append, nil-append, append-nil, append_assoc}
use rpi_procmon.Base.{
  ◌≡◌, refl, sym, ap, ◌∙◌, Bool, true, false, ◌&&◌, not, Bool-cases, inl, inr, arith,
}
use mathlib.Core.List
use rpi_procmon.Base.Text.{is_space, is_empty, trim_left, trim_right, trim_space}
use rpi_procmon.Base.Text.Split.{fields, fields_from, equal_fold}
use rpi_procmon.Api.Auth.{bearer_token}

-- No character of the text is a space.
abbrev pub is_solid : String → Bool
is_solid [] = true
is_solid (c ∷ s) = not (is_space (code c)) && is_solid s

trim_right-solid : (s : String) → is_solid s ≡ true → trim_right s ≡ s
unfolding trim_right
trim_right-solid [] h = refl
trim_right-solid (c ∷ s) h = elim (Bool-cases (is_space (code c))) [
  | inl space ↦ absurd (cc (rw space at h))
  | inr text ↦ rw (text, trim_right-solid s (rw text at h)) refl
]

trim_left-solid : (s : String) → is_solid s ≡ true → trim_left s ≡ s
unfolding trim_left
trim_left-solid [] h = refl
trim_left-solid (c ∷ s) h = elim (Bool-cases (is_space (code c))) [
  | inl space ↦ absurd (cc (rw space at h))
  | inr text ↦ rw text refl
]

push : (cur : String) (c : Char) (s : String) → (cur ++ c ∷ []) ++ s ≡ cur ++ c ∷ s
push cur c s =
    append_assoc cur (c ∷ []) s
    ∙ ap (λ (x : String). cur ++ x) (cons-append c [] s ∙ ap (λ (x : String). c ∷ x) (nil-append s))

fields_from-solid :
    (cur s : String)
    → is_solid s ≡ true
    → is_empty (cur ++ s) ≡ false
    → fields_from cur s ≡ List.◌∷◌ (cur ++ s) List.[]
unfolding fields_from
fields_from-solid cur [] h some' =
    let whole : cur ++ [] ≡ cur = append-nil cur in
    let text : is_empty cur ≡ false = ap is_empty (sym whole) ∙ some' in rw (whole, text) refl
fields_from-solid cur (c ∷ s) h some' = elim (Bool-cases (is_space (code c))) [
  | inl space ↦ absurd (cc (rw space at h))
  | inr text ↦
      let moved : (cur ++ c ∷ []) ++ s ≡ cur ++ c ∷ s = push cur c s in
      rw (text, fields_from)
        (fields_from-solid (cur ++ c ∷ []) s (rw text at h) (ap is_empty moved ∙ some')
          ∙ ap (λ (x : String). List.◌∷◌ x List.[]) moved)
]

fields_from-word :
    (cur word s : String)
    → is_solid word ≡ true
    → fields_from cur (word ++ s) ≡ fields_from (cur ++ word) s
unfolding fields_from
fields_from-word cur [] s h = rw (nil-append s, append-nil cur) refl
fields_from-word cur (c ∷ word) s h = elim (Bool-cases (is_space (code c))) [
  | inl space ↦ absurd (cc (rw space at h))
  | inr text ↦
      rw (cons-append c word s, fields_from)
        (rw (text, fields_from)
          (fields_from-word (cur ++ c ∷ []) word s (rw text at h)
            ∙ ap (λ (x : String). fields_from x s) (push cur c word)))
]

append-ne-empty : (s t : String) → is_empty t ≡ false → is_empty (s ++ t) ≡ false
append-ne-empty [] t h = rw (nil-append t) h
append-ne-empty (c ∷ s) t h = rw (cons-append c s t) refl

ne-empty-append : (s t : String) → is_empty s ≡ false → is_empty (s ++ t) ≡ false
ne-empty-append [] t h = absurd (cc h)
ne-empty-append (c ∷ s) t h = rw (cons-append c s t) refl

trim_right-append :
    (s t : String) → is_empty t ≡ false → trim_right t ≡ t → trim_right (s ++ t) ≡ s ++ t
unfolding trim_right
trim_right-append [] t some' h = rw (nil-append t) h
trim_right-append (c ∷ s) t some' h =
    rw (cons-append c s t, trim_right)
      (rw (trim_right-append s t some' h, append-ne-empty s t some') (ground arith))

trim_left-word :
    (word s : String)
    → is_empty word ≡ false
    → is_solid word ≡ true
    → trim_left (word ++ s) ≡ word ++ s
unfolding trim_left
trim_left-word [] s some' h = absurd (cc some')
trim_left-word (c ∷ word) s some' h = elim (Bool-cases (is_space (code c))) [
  | inl space ↦ absurd (cc (rw space at h))
  | inr text ↦ rw (cons-append c word s, trim_left) (rw text refl)
]

fields_from-space :
    (c : Char) (word s : String)
    → is_space (code c) ≡ true
    → is_empty word ≡ false
    → fields_from word ((c ∷ []) ++ s) ≡ List.◌∷◌ word (fields_from [] s)
unfolding fields_from
fields_from-space c word s space some' =
    rw (cons-append c [] s, fields_from) (rw (space, some', nil-append s) refl)

two_fields :
    (scheme token : String)
    → is_solid scheme ≡ true
    → is_empty scheme ≡ false
    → is_solid token ≡ true
    → is_empty token ≡ false
    → fields_from [] (scheme ++ (" " ++ token)) ≡ List.◌∷◌ scheme (List.◌∷◌ token List.[])
unfolding fields_from
two_fields scheme token solid some' solid' some'' =
    fields_from-word [] scheme (" " ++ token) solid
    ∙ (rw (nil-append scheme) (fields_from-space _ scheme token refl some')
        ∙ ap (λ (xs : List.List String). List.◌∷◌ scheme xs)
            (fields_from-solid [] token solid' (append-ne-empty [] token some'')
              ∙ ap (λ (x : String). List.◌∷◌ x List.[]) (nil-append token)))

scheme_some : (scheme : String) → equal_fold scheme "Bearer" ≡ true → is_empty scheme ≡ false
unfolding equal_fold
scheme_some [] fold = absurd (cc fold)
scheme_some (c ∷ s) fold = refl

-- `bearerToken` reads the token behind the scheme, whatever the letters' case, if the two are
-- texts without space.
pub bearer_token-solid :
    (scheme token : String)
    → equal_fold scheme "Bearer" ≡ true
    → is_solid scheme ≡ true
    → is_empty token ≡ false
    → is_solid token ≡ true
    → bearer_token (scheme ++ (" " ++ token)) ≡ token
unfolding bearer_token trim_space fields
bearer_token-solid scheme token fold scheme_solid some' solid =
    let header = scheme ++ (" " ++ token) in
    let named : is_empty scheme ≡ false = scheme_some scheme fold in
    let ends : is_empty (" " ++ token) ≡ false = append-ne-empty " " token some' in
    let behind : trim_right (" " ++ token) ≡ " " ++ token =
      trim_right-append " " token some' (trim_right-solid token solid) in
    let trimmed : trim_right (trim_left header) ≡ header =
      ap trim_right (trim_left-word scheme (" " ++ token) named scheme_solid)
      ∙ trim_right-append scheme (" " ++ token) ends behind in
    rw
      (
        trimmed,
        ne-empty-append scheme (" " ++ token) named,
        two_fields scheme token scheme_solid named solid some',
        fold,
        trim_left-solid token solid,
        trim_right-solid token solid,
      )
      refl
