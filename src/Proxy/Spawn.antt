-- ===== src/Proxy/Spawn.antt =====
-- What internal/proxy/manager.go asks of the operating system: DefaultSpawnProcess, IsUnderSystemd, and
-- the wait of ensureProcessProxy for the first of the exit of the new process and the end of the
-- startup window.
mod Examples
use capi_shell_mcp.Base.{
  ℕ, ◌+◌, GoString, lit, str_eq, List, [], ◌∷◌, lookup, Option, none, some, Option-cases, Result,
  ok, err, GoError, wrapped, exited_early, Result-cases, Bool, true, false, inl, inr, ◌↔◌, ◌⊎◌, ◌≡◌,
  refl, arith,
}
use capi_shell_mcp.Proxy.Process.{
  Manager, StartOutcome, spawn_failed, exited, running, target_key, finish_start,
  ensure_process_proxy,
}
use capi_shell_mcp.Server.{Outside}

pub record ProcessOs (W : Type 0) : Type 0 where
  pub lookup_env : GoString → W → Option GoString
  -- Cmd.Start, with the number of the process.
  pub start : List GoString → W → Result ℕ × W
  -- The exit of a process, if it comes within that many nanoseconds; the inner `none` is the code -1.
  pub exits_within : ℕ → ℕ → W → Option (Option ℕ) × W

abbrev pub startup_window : ℕ
startup_window = 1_000_000_000

module _ {W : Type 0} (os : ProcessOs W) where
  unfoldable pub is_under_systemd : W → Bool
  is_under_systemd w = elim (os.lookup_env (lit "INVOCATION_ID") w) [ none ↦ false | some v ↦ true ]

  unfoldable pub default_spawn_process : GoString → GoString → GoString → W → Result ℕ × W
  default_spawn_process sshuttle_host ip port =
      os.start (lit "sshuttle" ∷ lit "-r" ∷ sshuttle_host ∷ target_key ip port ∷ [])

  abbrev pub after_start : Result ℕ × W → StartOutcome × W
  after_start (err e, w) = (spawn_failed e, w)
  after_start (ok process, w) =
      let (exit, w') = os.exits_within startup_window process w in
      (elim exit [ none ↦ running process | some code ↦ exited code ], w')

  unfoldable pub spawn_and_wait : GoString → GoString → GoString → W → StartOutcome × W
  unfolding default_spawn_process
  spawn_and_wait sshuttle_host ip port w =
      after_start (default_spawn_process sshuttle_host ip port w)

  -- proxy.New(..., proxy.DefaultSpawnProcess, proxy.IsUnderSystemd) of main.go.
  abbrev pub with_proxy : {C : Type 0} → Outside W C → Outside W C
  with_proxy out = record out {
    is_under_systemd = is_under_systemd;
    spawn_process = spawn_and_wait;
  }

  module _ (clock : W → ℕ) (host ip port : GoString) (ttl : ℕ) (m : Manager) (w : W)
      (absent : lookup (target_key ip port) m.process_entries ≡ none) where
    -- The process is there when the startup window is over.
    abbrev pub StaysUp : Type 0
    StaysUp =
        (process : ℕ) × ((default_spawn_process host ip port w).0 ≡ ok process)
        × ((os.exits_within startup_window process (default_spawn_process host ip port w).1).0
            ≡ none)

    abbrev pub called : Result (Unit {0}) × Manager × W
    called = ensure_process_proxy (spawn_and_wait host ip port) clock (target_key ip port) ttl m w

    called_outcome :
        (outcome : StartOutcome)
        → (spawn_and_wait host ip port w).0 ≡ outcome
        → (due : ℕ) × (called.0 ≡ (finish_start (target_key ip port) due outcome m).0)
          × (called.1 ≡ (finish_start (target_key ip port) due outcome m).1)
    unfolding ensure_process_proxy
    called_outcome outcome h = (
      clock (spawn_and_wait host ip port w).1 + ttl,
      ground (arith, absent),
      ground (arith, absent),
    )

    -- A call for a key without a tunnel succeeds exactly if sshuttle starts and does not exit within
    -- the startup window; a call that fails leaves the manager as it was.
    pub ensure_process_proxy_starts :
        ((called.0 ≡ ok tt) ↔ StaysUp) × ((called.0 ≡ ok tt) ⊎ (called.1 ≡ m))
    unfolding spawn_and_wait finish_start
    ensure_process_proxy_starts = elim (Result-cases (default_spawn_process host ip port w).0) [
      | inr (e, bad) ↦
          let (due, r, kept) = called_outcome (spawn_failed e) (ground arith) in
          (((λ h. absurd (ground arith)), λ (p, h, _). absurd (ground arith)), inr kept)
      | inl (process, started) ↦
          elim (Option-cases
            (os.exits_within startup_window process (default_spawn_process host ip port w).1).0) [
              | inl stays ↦
                  let (due, r, _) = called_outcome (running process) (ground arith) in
                  (((λ h. (process, started, stays)), λ _. r), inl r)
              | inr (code, gone) ↦
                  let (due, r, kept) = called_outcome (exited code) (ground arith) in
                  (((λ h. absurd (ground arith)), λ (p, h, up). absurd (ground arith)), inr kept)
            ]
    ]
