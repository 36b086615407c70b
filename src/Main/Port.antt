-- ===== src/Main/Port.antt =====
-- strconv.Atoi, which reads the port of the daemon. An `int` has 64 bits.
pub mod RoundTrip
use capi_shell_mcp.Base.{
  ℕ, ◌+◌, ◌-◌, ◌*◌, ◌/◌, ◌<◌, ◌≤◌, suc, zero, GoString, [], ◌∷◌, itoa, digits, leb, ltb, nat_beq,
  nat_beq_iff, ◌&&◌, Bool, Option, none, some, if◌then◌else◌, Bool-cases, inl, inr, ◌≡◌, refl,
  arith, ◌∙◌,
}
use capi_shell_mcp.Config.{ℤ, pos, negsuc}

abbrev pub max_int : ℕ
max_int = 9_223_372_036_854_775_807

abbrev pub is_digit : ℕ → Bool
is_digit c = leb b'0' c && leb c b'9'

-- The value of a text of digits, after those of `acc`.
unfoldable pub read_digits : ℕ → GoString → Option ℕ
read_digits acc [] = some acc
read_digits acc (c ∷ s) =
    let rest = read_digits (acc * 10 + (c - b'0')) s in if is_digit c then rest else none

-- There has to be a digit.
abbrev pub read_natural : GoString → Option ℕ
read_natural [] = none
read_natural (c ∷ s) = read_digits 0 (c ∷ s)

abbrev pub positive : Option ℕ → Option ℤ
positive none = none
positive (some n) = if leb n max_int then some (pos n) else none

abbrev negative : Option ℕ → Option ℤ
negative none = none
negative (some zero) = some (pos 0)
negative (some (suc n)) = if leb n max_int then some (negsuc n) else none

-- Nothing stands for the errors, of the syntax and of the range.
unfoldable pub atoi : GoString → Option ℤ
atoi [] = none
atoi (c ∷ s) =
    if nat_beq c b'-'
    then negative (read_natural s)
    else if nat_beq c b'+'
    then positive (read_natural s)
    else positive (read_natural (c ∷ s))
