-- ===== src/Config/Env/Render.antt =====
-- Texts with variables in them: what `expandEnv` makes of the written form.
use capi_shell_mcp.Base.{
  ℕ, zero, suc, ◌≤◌, GoString, List, [], ◌∷◌, ◌++◌, length, length-append, nat_beq, nat_beq_iff,
  All, Lacks, Bool, true, false, some, ◌≡◌, ◌≢◌, refl, arith,
}
use capi_shell_mcp.Config.Env.{
  is_name_start, is_name_char, braced_name, bare_name, match_variable, expand, expand_env,
}

-- A character, `${name}` or `$name`.
pub data Segment : Type 0 where
  plain : ℕ → Segment
  braced : GoString → Segment
  bare : GoString → Segment

abbrev pub render : List Segment → GoString
render [] = []
render (plain c ∷ ss) = c ∷ render ss
render (braced name ∷ ss) = b'$' ∷ b'{' ∷ (name ++ (b'}' ∷ render ss))
render (bare name ∷ ss) = b'$' ∷ (name ++ render ss)

abbrev pub values : (GoString → GoString) → List Segment → GoString
values getenv [] = []
values getenv (plain c ∷ ss) = c ∷ values getenv ss
values getenv (braced name ∷ ss) = getenv name ++ values getenv ss
values getenv (bare name ∷ ss) = getenv name ++ values getenv ss

abbrev pub IsName : GoString → Type 0
IsName [] = ⊥
IsName (c ∷ s) = (is_name_start c ≡ true) × All (λ d. is_name_char d ≡ true) s

-- The next character does not go on with a name.
abbrev pub ends_name : GoString → Bool
ends_name [] = true
ends_name (c ∷ s) = elim (is_name_char c) [ true ↦ false | false ↦ true ]

-- No other dollar signs; a name in braces is not empty and has no brace; a name without braces is
-- one, and ends where the rest begins.
abbrev pub IsWritten : List Segment → Type 0
IsWritten [] = Unit
IsWritten (plain c ∷ ss) = (c ≢ b'$') × IsWritten ss
IsWritten (braced name ∷ ss) = (name ≢ []) × Lacks b'}' name × IsWritten ss
IsWritten (bare name ∷ ss) = IsName name × (ends_name (render ss) ≡ true) × IsWritten ss

braced_name-append :
    (name s : GoString) → Lacks b'}' name → braced_name (name ++ (b'}' ∷ s)) ≡ some (name, s)
unfolding braced_name
braced_name-append [] s h = refl
braced_name-append (c ∷ name) s (hc, h) =
    ground (arith, braced_name-append name s h, nat_beq_iff c b'}')

bare_name-stop : (s : GoString) → ends_name s ≡ true → bare_name s ≡ ([], s)
unfolding bare_name
bare_name-stop [] h = refl
bare_name-stop (c ∷ s) h = ground arith

bare_name-append :
    (name s : GoString)
    → All (λ d. is_name_char d ≡ true) name
    → ends_name s ≡ true
    → bare_name (name ++ s) ≡ (name, s)
unfolding bare_name
bare_name-append [] s h e = bare_name-stop s e
bare_name-append (c ∷ name) s (hc, h) e = ground (arith, bare_name-append name s h e)

match_variable-braced :
    (name s : GoString)
    → name ≢ []
    → Lacks b'}' name
    → match_variable (b'{' ∷ (name ++ (b'}' ∷ s))) ≡ some (name, s)
unfolding match_variable
match_variable-braced [] s ne h = absurd (ne refl)
match_variable-braced (c ∷ name) s ne h = ground (arith, braced_name-append (c ∷ name) s h)

name_start_char :
    (c : ℕ) → is_name_start c ≡ true → (is_name_char c ≡ true) × (nat_beq c b'{' ≡ false)
name_start_char c h = ground arith

match_variable-bare :
    (name s : GoString)
    → IsName name
    → ends_name s ≡ true
    → match_variable (name ++ s) ≡ some (name, s)
unfolding match_variable
match_variable-bare [] s h e = absurd h
match_variable-bare (c ∷ name) s (hc, h) e =
    let (char, no_brace) = name_start_char c hc in
    rw (no_brace, hc, bare_name-append name s h e) refl

module _ (getenv : GoString → GoString) where
  -- Any fuel that is not less than the length of the text is enough.
  expand-render :
      (ss : List Segment) (fuel : ℕ)
      → IsWritten ss
      → length (render ss) ≤ fuel
      → expand getenv fuel (render ss) ≡ values getenv ss
  unfolding expand
  expand-render [] zero h f = refl
  expand-render [] (suc fuel) h f = refl
  expand-render (plain c ∷ ss) zero h f = absurd (omega arith)
  expand-render (plain c ∷ ss) (suc fuel) (hc, h) f =
      ground (arith, expand-render ss fuel h, nat_beq_iff c b'$')
  expand-render (braced name ∷ ss) zero h f = absurd (omega arith)
  expand-render (braced name ∷ ss) (suc fuel) (ne, hn, h) f = ground (
    arith,
    expand-render ss fuel h,
    match_variable-braced name (render ss) ne hn,
    length-append name (b'}' ∷ render ss),
  )
  expand-render (bare name ∷ ss) zero h f = absurd (omega arith)
  expand-render (bare name ∷ ss) (suc fuel) (hn, e, h) f = ground (
    arith,
    expand-render ss fuel h,
    match_variable-bare name (render ss) hn e,
    length-append name (render ss),
  )

  -- In a text that is written as characters other than the dollar sign, `${name}` and `$name`, every
  -- variable is replaced by its value and all else stays; a value is not expanded again.
  pub expand_env-render :
      (ss : List Segment) → IsWritten ss → expand_env getenv (render ss) ≡ values getenv ss
  unfolding expand_env
  expand_env-render ss h = expand-render ss (length (render ss)) h (omega arith)
