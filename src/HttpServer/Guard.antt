-- ===== src/HttpServer/Guard.antt =====
-- Requests with a foreign Host header.
use capi_shell_mcp.Base.{
  ℕ, GoString, ◌++◌, ◌∷◌, str_beq, str_beq_iff, itoa, Bool-cases, inl, inr, ◌⊎◌, ◌≡◌, ◌≢◌, refl,
}
use capi_shell_mcp.HttpServer.{HttpRequest, Response, host_check_middleware, loopback}

-- The two values that the daemon answers to.
abbrev pub IsLoopback : ℕ → GoString → Type 0
IsLoopback port host = (host ≡ loopback) ⊎ (host ≡ loopback ++ (b':' ∷ itoa port))

-- A request changes the state only if its Host is the loopback address, alone or with the port.
pub host_check_middleware_guard :
    {S : Type 0} (port : ℕ) (next : HttpRequest → S → Response × S) (r : HttpRequest) (s : S)
    → (host_check_middleware port next r s).1 ≢ s
    → IsLoopback port r.host × (host_check_middleware port next r s ≡ next r s)
unfolding host_check_middleware
host_check_middleware_guard port next r s changed = elim (Bool-cases (str_beq r.host loopback)) [
  | inl bare ↦ (inl ((str_beq_iff r.host loopback).0 bare), rw bare refl)
  | inr other ↦ elim (Bool-cases (str_beq r.host (loopback ++ (b':' ∷ itoa port)))) [
    | inl with_port ↦ (inr ((str_beq_iff r.host _).0 with_port), rw (other, with_port) refl)
    | inr foreign ↦ absurd (changed (rw (other, foreign) refl))
  ]
]
