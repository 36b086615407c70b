-- ===== src/Base/Errors.antt =====
-- Go's `(T, error)` results, and the errors of the program.
use mathlib.Core.Path.{◌≡◌, refl}
use mathlib.Core.Logic.{◌⊎◌, inl, inr}
use Prim.Native.Nat.{ℕ}
use mathlib.Core.Bool.{Bool, false}
use mathlib.Core.Option.{Option}
use capi_shell_mcp.Base.Text.{GoString, is_empty}

-- What is wrong with a target text (capi/target.go, capi/target_pattern.go).
pub data TargetFault : Type 0 where
  wrong_shape must_not_be_empty too_many_segments empty_segment : TargetFault

-- The reasons of Kubernetes API errors that the program tells apart.
pub data ApiReason : Type 0 where
  already_exists invalid other_reason : ApiReason

-- An `error`. `external` comes from code outside the repository, with its text; the constructors
-- with a quoted value stand for the `fmt.Errorf` texts with that value in them. `unknown_target` wraps
-- the sentinel ErrUnknownTarget of kubernetes-mcp-server.
pub data GoError : Type 0 where
  external : GoString → GoError
  api_error : ApiReason → GoString → GoError
  plain : GoString → GoError
  plain_about : GoString → GoString → GoError
  wrapped : GoString → GoError → GoError
  invalid_target : TargetFault → GoString → GoError
  not_full_path : GoString → GoError → GoError
  unknown_target : GoString → GoError → GoError
  exited_early : Option ℕ → GoError

pub data Result {ℓ} (A : Type ℓ) : Type ℓ where
  ok : A → Result A
  err : GoError → Result A

pub Result-cases {ℓ} :
    {A : Type ℓ} (r : Result A) → ((a : A) × (r ≡ ok a)) ⊎ ((e : GoError) × (r ≡ err e))
Result-cases (ok a) = inl (a, refl)
Result-cases (err e) = inr (e, refl)

-- err.Error() == "": every text of the program's own begins with a literal.
unfoldable pub has_empty_text : GoError → Bool
has_empty_text (external s) = is_empty s
has_empty_text (api_error r s) = is_empty s
has_empty_text _ = false

infixl 5 ◌>>=◌
abbrev pub ◌>>=◌ {ℓ κ} : {A : Type ℓ} {B : Type κ} → Result A → (A → Result B) → Result B
err x >>= next = err x
ok v >>= next = next v

pub >>=-eq-ok {ℓ κ} :
    {A : Type ℓ} {B : Type κ} (r : Result A) (next : A → Result B) {v : B}
    → (r >>= next) ≡ ok v
    → (a : A) × (r ≡ ok a) × (next a ≡ ok v)
>>=-eq-ok (err x) next h = absurd (cc)
>>=-eq-ok (ok v) next h = (v, refl, h)
