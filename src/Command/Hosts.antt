-- ===== src/Command/Hosts.antt =====
-- internal/command/runner.go: the hosts that `targetHosts` tries.
use rpi_procmon.Base.{
  String, ◌≡◌, refl, ◌∙◌, sym, false, ◌||◌, List, [], ◌∷◌, ◌++◌, if◌then◌else◌, has, IsDistinct,
  arith, Bool-cases, inl, inr, eq_iff,
}
use mathlib.Core.List.{append-nil, append_assoc}
use rpi_procmon.Base.Text.{trim_space, is_blank}
use rpi_procmon.Config.Types.{TargetConfig}
use rpi_procmon.Command.{append_host, append_hosts, target_hosts}

-- The hosts that a target names, trimmed, those that are blank left out.
abbrev pub named : List String → List String
named [] = []
named (host ∷ hosts) =
    let rest = named hosts in if is_blank host then rest else trim_space host ∷ rest

-- The texts of a list, each at its first place only; `seen` are those of before.
abbrev pub firsts : List String → List String → List String
firsts seen [] = []
firsts seen (x ∷ xs) =
    let skipped = firsts seen xs in
    let kept = firsts (seen ++ x ∷ []) xs in if has seen x then skipped else x ∷ kept

append_hosts-firsts :
    (hosts seen : List String) → append_hosts hosts seen ≡ seen ++ firsts seen (named hosts)
unfolding append_hosts append_host
append_hosts-firsts [] seen = sym (append-nil seen)
append_hosts-firsts (host ∷ hosts) seen = elim (Bool-cases (is_blank host)) [
  | inl blank ↦ rw blank (append_hosts-firsts hosts seen)
  | inr text ↦ rw text (elim (Bool-cases (has seen (trim_space host))) [
    | inl old ↦ rw old (append_hosts-firsts hosts seen)
    | inr new ↦ rw new (
        append_hosts-firsts hosts (seen ++ trim_space host ∷ [])
        ∙ append_assoc seen (trim_space host ∷ []) _)
  ])
]

has-append : (xs ys : List String) (x : String) → has (xs ++ ys) x ≡ (has xs x || has ys x)
has-append [] ys x = refl
has-append (y ∷ xs) ys x = ground (arith, has-append xs ys x)

IsDistinct-append_one :
    (xs : List String) (x : String) → IsDistinct xs → has xs x ≡ false → IsDistinct (xs ++ x ∷ [])
IsDistinct-append_one [] x h new = (refl, tt)
IsDistinct-append_one (y ∷ xs) x h new = (
  has-append xs (x ∷ []) y ∙ ground (arith, h.0, eq_iff y x, eq_iff x y),
  IsDistinct-append_one xs x h.1 (ground arith),
)

append_host-IsDistinct :
    (host : String) (seen : List String) → IsDistinct seen → IsDistinct (append_host host seen)
unfolding append_host
append_host-IsDistinct host seen h = elim (Bool-cases (is_blank host)) [
  | inl blank ↦ rw blank h
  | inr text ↦ rw text (elim (Bool-cases (has seen (trim_space host))) [
    | inl old ↦ rw old h
    | inr new ↦ rw new (IsDistinct-append_one seen (trim_space host) h new)
  ])
]

append_hosts-IsDistinct :
    (hosts seen : List String) → IsDistinct seen → IsDistinct (append_hosts hosts seen)
unfolding append_hosts
append_hosts-IsDistinct [] seen h = h
append_hosts-IsDistinct (host ∷ hosts) seen h =
    append_hosts-IsDistinct hosts (append_host host seen) (append_host-IsDistinct host seen h)

has-append_host :
    (host : String) (seen : List String) (x : String)
    → has (append_host host seen) x ≡ (has seen x || has (named (host ∷ [])) x)
unfolding append_host
has-append_host host seen x = elim (Bool-cases (is_blank host)) [
  | inl blank ↦ rw blank (grind arith)
  | inr text ↦ rw text (elim (Bool-cases (has seen (trim_space host))) [
    | inl old ↦ rw old (ground (arith, eq_iff (trim_space host) x, old))
    | inr new ↦ rw new (has-append seen (trim_space host ∷ []) x)
  ])
]

has-append_hosts :
    (hosts seen : List String) (x : String)
    → has (append_hosts hosts seen) x ≡ (has seen x || has (named hosts) x)
unfolding append_hosts
has-append_hosts [] seen x = ground arith
has-append_hosts (host ∷ hosts) seen x =
    ground (arith, has-append_hosts hosts (append_host host seen) x, has-append_host host seen x)

-- The hosts to try: those of the list, blank ones left out, each once, in the order of their first
-- places.
pub record IsHosts (given hosts : List String) : Type 0 where
  pub in_order : hosts ≡ firsts [] (named given)
  pub distinct : IsDistinct hosts
  pub complete : (x : String) → has hosts x ≡ has (named given) x

-- The hosts of a target are distinct, and are those that the target names, the primary one first
-- and then the fallback hosts, trimmed, each at its first place, and without the blank ones.
pub target_hosts-IsHosts :
    (target : TargetConfig) → IsHosts (target.host ∷ target.fallback_hosts) (target_hosts target)
unfolding target_hosts append_hosts
target_hosts-IsHosts target = record {
  in_order = append_hosts-firsts (target.host ∷ target.fallback_hosts) [];
  distinct = append_hosts-IsDistinct (target.host ∷ target.fallback_hosts) [] tt;
  complete = has-append_hosts (target.host ∷ target.fallback_hosts) [];
}
