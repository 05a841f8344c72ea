-- ===== src/Api/Auth.antt =====
-- internal/api/server.go: the token of the control API.
pub mod Bearer
use rpi_procmon.Base.{
  ℕ, String, ◌≡◌, ◌≢◌, ◌↔◌, refl, sym, ap, ◌∙◌, Bool, true, false, ◌&&◌, not, List, [], ◌∷◌,
  if◌then◌else◌, Bool-cases, inl, inr, length, eqb, arith,
}
use rpi_procmon.Base.Text.{trim_space, is_empty}
use rpi_procmon.Base.Text.Split.{fields, equal_fold}
use rpi_procmon.Api.{Request}

abbrev token_of : List String → String
token_of (scheme ∷ token ∷ []) = if equal_fold scheme "Bearer" then trim_space token else ""
token_of parts = ""

-- `bearerToken`.
unfoldable pub bearer_token : String → String
bearer_token header =
    let trimmed = trim_space header in if is_empty trimmed then "" else token_of (fields trimmed)

-- `subtle.ConstantTimeCompare`, as a test.
abbrev pub same_bytes : List ℕ → List ℕ → Bool
same_bytes [] [] = true
same_bytes [] (y ∷ ys) = false
same_bytes (x ∷ xs) [] = false
same_bytes (x ∷ xs) (y ∷ ys) = eqb x y && same_bytes xs ys

module _ (sha256 : String → List ℕ) where
  -- `authorizeAdmin`; `sha256` is `sha256.Sum256` of the bytes of a text.
  unfoldable pub authorize_admin : String → Request → Bool
  authorize_admin admin_token r =
      let token = bearer_token r.authorization in
      if is_empty admin_token
      then false
      else not (is_empty token) && same_bytes (sha256 token) (sha256 admin_token)

  same_bytes-eq : (xs ys : List ℕ) → same_bytes xs ys ≡ true → xs ≡ ys
  same_bytes-eq [] [] h = refl
  same_bytes-eq [] (y ∷ ys) h = absurd cc
  same_bytes-eq (x ∷ xs) [] h = absurd cc
  same_bytes-eq (x ∷ xs) (y ∷ ys) h = elim (Bool-cases (eqb x y)) [
    | inl same ↦
        let head : x ≡ y = ground arith in λ i. head i ∷ same_bytes-eq xs ys (rw same at h) i
    | inr other ↦ absurd (cc (rw other at h))
  ]

  same_bytes_refl : (xs : List ℕ) → same_bytes xs xs ≡ true
  same_bytes_refl [] = refl
  same_bytes_refl (x ∷ xs) =
      let head : eqb x x ≡ true = ground arith in rw head (same_bytes_refl xs)

  -- The two texts do not collide: they have the same digest only if they are the same.
  abbrev pub NoCollision : String → String → Type 0
  NoCollision s t = sha256 s ≡ sha256 t → s ≡ t

-- If the bearer token of a request does not collide with the admin token under SHA-256, the request
-- is authorized exactly if there is an admin token and the request carries it as its bearer token.
pub authorize_admin-bearer_token :
    (sha256 : String → List ℕ) (admin_token : String) (r : Request)
    → NoCollision sha256 (bearer_token r.authorization) admin_token
    → (authorize_admin sha256 admin_token r ≡ true)
      ↔ ((is_empty admin_token ≡ false) × (bearer_token r.authorization ≡ admin_token))
unfolding authorize_admin
authorize_admin-bearer_token sha256 admin_token r distinct =
    let token = bearer_token r.authorization in
    elim (Bool-cases (is_empty admin_token)) [
      | inl off ↦ (λ h. absurd (cc (rw off at h)), λ h. absurd (cc h.0))
      | inr on ↦ (
        (λ h. elim (Bool-cases (is_empty token)) [
          | inl none' ↦ absurd (cc (rw (on, none') at h))
          | inr some' ↦ (
            on,
            distinct
                (same_bytes-eq sha256 (sha256 token) (sha256 admin_token) (rw (on, some') at h)),
          )
        ]),
        (λ h. rw h.1 (rw on (same_bytes_refl sha256 (sha256 admin_token)))),
      )
    ]
