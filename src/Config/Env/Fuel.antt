-- ===== src/Config/Env/Fuel.antt =====
-- The rounds of `expandEnv`.
use capi_shell_mcp.Base.{
  ℕ, zero, suc, ◌≤◌, GoString, [], ◌∷◌, length, Option, none, some, Option-cases, inl, inr, ◌≡◌,
  refl, arith,
}
use capi_shell_mcp.Config.Env.{braced_name, bare_name, match_variable, expand, expand_env}

-- The length of what is left, if there is a match.
abbrev rest_length : Option (GoString × GoString) → ℕ
rest_length none = 0
rest_length (some (name, rest)) = length rest

braced_name-length : (s : GoString) → rest_length (braced_name s) ≤ length s
unfolding braced_name
braced_name-length [] = omega arith
braced_name-length (c ∷ s) = ground (arith, braced_name-length s)

bare_name-length : (s : GoString) → length (bare_name s).1 ≤ length s
unfolding bare_name
bare_name-length [] = omega arith
bare_name-length (c ∷ s) = ground (arith, bare_name-length s)

match_variable-length : (s : GoString) → rest_length (match_variable s) ≤ length s
unfolding match_variable
match_variable-length [] = omega arith
match_variable-length (c ∷ s) = ground (arith, braced_name-length s, bare_name-length (c ∷ s))

module _ (getenv : GoString → GoString) where
  expand-fuel :
      (f g : ℕ) (s : GoString) → length s ≤ f → length s ≤ g → expand getenv f s ≡ expand getenv g s
  unfolding expand
  expand-fuel zero zero s h k = refl
  expand-fuel zero (suc g) [] h k = refl
  expand-fuel zero (suc g) (c ∷ s) h k = absurd (omega arith)
  expand-fuel (suc f) zero [] h k = refl
  expand-fuel (suc f) zero (c ∷ s) h k = absurd (omega arith)
  expand-fuel (suc f) (suc g) [] h k = refl
  expand-fuel (suc f) (suc g) (c ∷ s) h k = elim (Option-cases (match_variable s)) [
    | inl nothing ↦ rw nothing (ground (arith, expand-fuel f g s))
    | inr ((name, rest), found) ↦
        let shorter : length rest ≤ length s = ground (arith, match_variable-length s) in
        rw found (ground (arith, expand-fuel f g s, expand-fuel f g rest))
  ]

  -- The scan ends within as many rounds as the text has characters: with more fuel the result is the
  -- same, so the fuel never cuts a text off.
  pub expand-enough :
      (fuel : ℕ) (s : GoString) → length s ≤ fuel → expand getenv fuel s ≡ expand_env getenv s
  unfolding expand_env
  expand-enough fuel s h = expand-fuel fuel (length s) s h (omega arith)
