-- ===== src/Base/Numbers.antt =====
-- strconv.Itoa on the numbers that are not negative.
use Prim.Native.Nat.{ℕ, zero, suc, ◌+◌, ◌/◌, ◌%◌}
use mathlib.Core.List.{[], ◌∷◌}
use capi_shell_mcp.Base.Tests.{nat_beq, if◌then◌else◌}
use capi_shell_mcp.Base.Text.{GoString}

-- One digit a round; a number has fewer digits than its value plus one.
unfoldable pub digits : ℕ → ℕ → GoString → GoString
digits zero n out = out
digits (suc fuel) n out =
    let more = digits fuel (n / 10) ((b'0' + n % 10) ∷ out) in
    if nat_beq (n / 10) 0 then (b'0' + n % 10) ∷ out else more

unfoldable pub itoa : ℕ → GoString
unfolding digits
itoa n = digits (suc n) n []
