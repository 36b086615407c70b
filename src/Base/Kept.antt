-- ===== src/Base/Kept.antt =====
-- A property of the state that a function which changes the state keeps.
use Prim.Native.Nat.{ℕ}
use mathlib.Core.List.{List, [], ◌∷◌}
use mathlib.Core.Logic.{inl, inr}
use capi_shell_mcp.Base.Errors.{Result, ok, err}
use capi_shell_mcp.Base.Effects.{Exec, bind, continue}
use capi_shell_mcp.Base.Tests.{Option-cases}
use capi_shell_mcp.Base.FanOut.{fan_out, run_goroutines, get_elem?, set, map_all}

module _ {S : Type 0} (P : S → Type 0) where
  abbrev pub Preserves : {R : Type 0} → (S → R × S) → Type 0
  Preserves f = (s : S) → P s → P (f s).1

  continue-keeps :
      {A B : Type 0} (r : Result A × S) (f : A → Exec S B)
      → P r.1
      → ((a : A) → Preserves (f a))
      → P (continue r f).1
  continue-keeps (ok a, s) f h g = g a s h
  continue-keeps (err e, s) f h g = h

  pub bind-Preserves :
      {A B : Type 0} (m : Exec S A) (f : A → Exec S B)
      → Preserves m
      → ((a : A) → Preserves (f a))
      → Preserves (bind m f)
  bind-Preserves m f h g s p = continue-keeps (m s) f (h s p) g

  module _ {T R : Type 0} (task : T → S → R × S) (each : (t : T) → Preserves (task t)) where
    run_goroutines-keeps :
        (targets : List T) (order : List ℕ) (results : List R)
        → Preserves (run_goroutines task targets order results)
    unfolding run_goroutines
    run_goroutines-keeps targets [] results s p = p
    run_goroutines-keeps targets (i ∷ order) results s p =
        elim (Option-cases (get_elem? targets i)) [
          | inl nothing ↦
              rw (nothing, run_goroutines) (run_goroutines-keeps targets order results s p)
          | inr (t, at) ↦
              rw (at, run_goroutines)
                (run_goroutines-keeps targets order (set results i (task t s).0) (task t s).1
                  (each t s p))
        ]

    pub fan_out-Preserves :
        (zero_value : R) (targets : List T) (order : List ℕ)
        → Preserves (fan_out zero_value task targets order)
    unfolding fan_out
    fan_out-Preserves zero_value targets order =
        run_goroutines-keeps targets order (map_all (λ _. zero_value) targets)
