-- ===== src/Config/Env.antt =====
-- `expandEnv` of internal/config/config.go: what ReplaceAllStringFunc does with the pattern
-- \$\{([^}]+)\}|\$([A-Za-z_][A-Za-z0-9_]*), and os.Getenv, which is "" for a variable that is not set.
pub mod Render
pub mod Fuel
use capi_shell_mcp.Base.{
  ℕ, zero, suc, GoString, List, [], ◌∷◌, ◌++◌, length, leb, nat_beq, ◌&&◌, ◌||◌, Bool, Option, none,
  some, if◌then◌else◌,
}

-- [A-Za-z_]
abbrev pub is_name_start : ℕ → Bool
is_name_start c = (leb b'A' c && leb c b'Z') || (leb b'a' c && leb c b'z') || nat_beq c b'_'

-- [A-Za-z0-9_]
abbrev pub is_name_char : ℕ → Bool
is_name_char c = is_name_start c || (leb b'0' c && leb c b'9')

-- The name before the first closing brace, and what follows the brace.
unfoldable pub braced_name : GoString → Option (GoString × GoString)
braced_name [] = none
braced_name (c ∷ s) =
    let more = braced_name s in
    if nat_beq c b'}'
    then some ([], s)
    else elim more [ none ↦ none | some (name, rest) ↦ some (c ∷ name, rest) ]

-- The longest run of characters of a name, and what follows it.
unfoldable pub bare_name : GoString → GoString × GoString
bare_name [] = ([], [])
bare_name (c ∷ s) =
    let (name, rest) = bare_name s in if is_name_char c then (c ∷ name, rest) else ([], c ∷ s)

-- A name in braces has a character at least.
abbrev pub non_empty_name : Option (GoString × GoString) → Option (GoString × GoString)
non_empty_name none = none
non_empty_name (some ([], rest)) = none
non_empty_name (some (c ∷ name, rest)) = some (c ∷ name, rest)

-- The match that begins with a dollar sign, after that sign: the variable and what follows it.
unfoldable pub match_variable : GoString → Option (GoString × GoString)
unfolding braced_name bare_name
match_variable [] = none
match_variable (c ∷ s) =
    if nat_beq c b'{'
    then non_empty_name (braced_name s)
    else if is_name_start c
    then some (bare_name (c ∷ s))
    else none

module _ (getenv : GoString → GoString) where
  -- One character or one variable a round.
  unfoldable pub expand : ℕ → GoString → GoString
  expand zero s = s
  expand (suc fuel) [] = []
  expand (suc fuel) (c ∷ s) =
      let kept = c ∷ expand fuel s in
      if nat_beq c b'$'
      then elim (match_variable s) [
        | none ↦ kept
        | some (name, rest) ↦ getenv name ++ expand fuel rest
      ]
      else kept

  unfoldable pub expand_env : GoString → GoString
  unfolding expand match_variable
  expand_env s = expand (length s) s
