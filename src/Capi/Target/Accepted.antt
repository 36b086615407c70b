-- ===== src/Capi/Target/Accepted.antt =====
-- The targets that ParseTarget of internal/capi/target.go accepts, and the fields without a slash.
use mathlib.Core.Equiv.{Iso, IsEquiv, iso_to_equiv}
use mathlib.Core.HLevel.{Σ_prop_path}
use capi_shell_mcp.Base.{[], ◌∷◌, GoString, Lacks, All, Result, ok, err, ◌≡◌, refl}
use capi_shell_mcp.Capi.Target.{fields, slash, format_target, TargetParts, parse_target, cluster_of}
use capi_shell_mcp.Capi.Target.RoundTrip.{format_target-parse_target, parse_target-format_target}

abbrev pub IsOk : Result TargetParts → Type 0
IsOk (ok p) = Unit {0}
IsOk (err e) = ⊥

abbrev pub AcceptedTarget : Type 0
AcceptedTarget = (t : GoString) × IsOk (parse_target t)

abbrev pub PlainParts : Type 0
PlainParts = (p : TargetParts) × All (Lacks slash) (fields (cluster_of p))

IsOk-prop : (r : Result TargetParts) → IsProp (IsOk r)
IsOk-prop (ok p) = hlevel
IsOk-prop (err e) = hlevel

Lacks-prop : (p : GoString) → IsProp (Lacks slash p)
Lacks-prop [] = hlevel
Lacks-prop (c ∷ p) = hlevel (Lacks-prop p)

plain-prop : (p : TargetParts) → IsProp (All (Lacks slash) (fields (cluster_of p)))
plain-prop p =
    hlevel (
      Lacks-prop p.kubeconfig_name,
      Lacks-prop p.context,
      Lacks-prop p.namespace,
      Lacks-prop p.name,
    )

from_result : (t : GoString) (r : Result TargetParts) → parse_target t ≡ r → IsOk r → PlainParts
from_result t (ok p) e h = (p, (format_target-parse_target t p e).1)
from_result t (err x) e h = absurd h

unfoldable pub accepted_parts : AcceptedTarget → PlainParts
unfolding from_result
accepted_parts (t, h) = from_result t (parse_target t) refl h

from_result-format :
    (t : GoString) (r : Result TargetParts) (e : parse_target t ≡ r) (h : IsOk r)
    → format_target (cluster_of (from_result t r e h).0) ≡ t
unfolding from_result
from_result-format t (ok p) e h = (format_target-parse_target t p e).0
from_result-format t (err x) e h = absurd h

from_result-parts :
    (t : GoString) (r : Result TargetParts) (e : parse_target t ≡ r) (h : IsOk r) (p : TargetParts)
    → parse_target t ≡ ok p
    → (from_result t r e h).0 ≡ p
unfolding from_result
from_result-parts t (ok q) e h p f = cc
from_result-parts t (err x) e h p f = absurd h

formatted-IsOk : (x : PlainParts) → IsOk (parse_target (format_target (cluster_of x.0)))
formatted-IsOk (p, h) = rw (parse_target-format_target (cluster_of p) h) tt

formatted : PlainParts → AcceptedTarget
formatted x = (format_target (cluster_of x.0), formatted-IsOk x)

targets_and_parts : Iso AcceptedTarget PlainParts
unfolding formatted accepted_parts
targets_and_parts = record {
  fun = accepted_parts;
  inv = formatted;
  rinv = λ x. Σ_prop_path plain-prop (
      from_result-parts (format_target (cluster_of x.0)) _ refl (formatted-IsOk x) x.0
        (parse_target-format_target (cluster_of x.0) x.1));
  linv = λ x. Σ_prop_path (λ t. IsOk-prop (parse_target t)) (from_result-format x.0 _ refl x.1);
}

-- The texts that are accepted as targets are the same thing as the fields without a slash: reading a
-- target is an equivalence between them, so that each such choice of four fields is read from exactly
-- one text, and that text is the format of the fields.
pub accepted_parts-IsEquiv :
    IsEquiv accepted_parts
    × ((x : AcceptedTarget) → format_target (cluster_of (accepted_parts x).0) ≡ x.0)
unfolding accepted_parts parse_target targets_and_parts
accepted_parts-IsEquiv =
    ((iso_to_equiv targets_and_parts).1, λ x. from_result-format x.0 (parse_target x.0) refl x.1)
