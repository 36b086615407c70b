-- ===== src/Proxy/Process/Fire.antt =====
-- Timers that fire and processes that exit.
use capi_shell_mcp.Base.{
  ℕ, ◌≤◌, nat_beq, nat_beq_iff, nat_eq, leb, GoString, str_eq, str_beq, str_beq_iff, Map, lookup,
  delete, delete-delete, none, some, if◌then◌else◌, ◌∷◌, ◌≡◌, ◌≢◌, arith, Bool, true, false, ◌&&◌,
  Option-cases, inl, inr, Bool-cases, ap, sym, ◌∙◌,
}
use capi_shell_mcp.Proxy.Process.{ArmedTimer, Manager, kill_process_entry, fire_timer, reap_exited}
use capi_shell_mcp.Proxy.Process.Invariant.{entry_of, timer_of, due_of, IsValid}
use capi_shell_mcp.Proxy.Process.Kill.{
  kill_present, without_entry-IsValid, reap_present, entry_cases, kill_process_entry_lem,
  kill_process_entry-IsValid,
}

fire_due :
    (m : Manager) (i now : ℕ) (t : ArmedTimer)
    → lookup i m.timers ≡ some t
    → leb t.due now ≡ true
    → fire_timer i now m ≡ kill_process_entry t.key (record m { timers = delete i m.timers })
unfolding fire_timer
fire_due m i now t h d = ground arith

-- A timer that is due does what a kill of its key does.
fire-kill :
    (m : Manager) (v : IsValid m) (i now : ℕ) (t : ArmedTimer)
    → lookup i m.timers ≡ some t
    → leb t.due now ≡ true
    → fire_timer i now m ≡ kill_process_entry t.key m
fire-kill m v i now t h d = elim (entry_cases m v t.key) [
  | inl nothing ↦ absurd (ground (arith, v.one_to_one t.key i))
  | inr (a, e, there, at) ↦
      let own : e.timer ≡ i = ground (arith, v.one_to_one t.key i) in
      fire_due m i now t h d
      ∙ kill_present t.key (record m { timers = delete i m.timers }) a e there at
      ∙ ap
          (λ (ts : Map ℕ ArmedTimer). record m {
            process_entries = delete t.key m.process_entries;
            timers = ts;
            signalled = e.process ∷ m.signalled;
          })
          (ap (λ (x : ℕ). delete x (delete i m.timers)) own
            ∙ delete-delete i m.timers
            ∙ ap (λ (x : ℕ). delete x m.timers) (sym own))
      ∙ sym (kill_present t.key m a e there at)
]

fire_idle :
    (m : Manager) (i now : ℕ)
    → (t : ArmedTimer) → lookup i m.timers ≡ some t
    → leb t.due now ≡ false
    → fire_timer i now m ≡ m
unfolding fire_timer
fire_idle m i now t h d = ground arith

fire_unarmed : (m : Manager) (i now : ℕ) → lookup i m.timers ≡ none → fire_timer i now m ≡ m
unfolding fire_timer
fire_unarmed m i now h = ground arith

-- A firing timer ends the tunnel that owns it, if its time has come, and no other tunnel.
abbrev ends_by : Manager → ℕ → ℕ → GoString → Bool
ends_by m i now k = elim (lookup i m.timers) [
  | none ↦ false
  | some t ↦ leb t.due now && str_beq t.key k
]

module _ (m : Manager) (v : IsValid m) where
  fire_timer-entry_of :
      (i now : ℕ) (k : GoString)
      → entry_of (fire_timer i now m) k ≡ (if ends_by m i now k then none else entry_of m k)
  fire_timer-entry_of i now k = elim (Option-cases (lookup i m.timers)) [
    | inl nothing ↦ rw (fire_unarmed m i now nothing) (ground arith)
    | inr (t, armed) ↦ elim (Bool-cases (leb t.due now)) [
      | inl over ↦
          rw (fire-kill m v i now t armed over)
            (ground (arith, (kill_process_entry_lem m v t.key k).0))
      | inr early ↦ rw (fire_idle m i now t armed early) (ground arith)
    ]
  ]

  pub fire_timer-IsValid : (i now : ℕ) → IsValid (fire_timer i now m)
  fire_timer-IsValid i now = elim (Option-cases (lookup i m.timers)) [
    | inl nothing ↦ rw (fire_unarmed m i now nothing) v
    | inr (t, armed) ↦ elim (Bool-cases (leb t.due now)) [
      | inl over ↦ rw (fire-kill m v i now t armed over) (kill_process_entry-IsValid m v t.key)
      | inr early ↦ rw (fire_idle m i now t armed early) v
    ]
  ]

  ended :
      (i now : ℕ) (k : GoString)
      → entry_of m k ≢ none
      → entry_of (fire_timer i now m) k ≡ none
      → ends_by m i now k ≡ true
  ended i now k there gone = elim (Bool-cases (ends_by m i now k)) [
    | inl yes_ends ↦ yes_ends
    | inr not_ends ↦ absurd (there (ground (arith, fire_timer-entry_of i now k)))
  ]

  ends_both :
      (i now : ℕ) (k : GoString) (t : ArmedTimer)
      → lookup i m.timers ≡ some t
      → ends_by m i now k ≡ true
      → (t.due ≤ now) × (t.key ≡ k)
  ends_both i now k t armed h = ground (arith, str_beq_iff t.key k)

  -- In a valid manager a timer that fires ends the tunnel of a key only if it is the timer of that
  -- tunnel, and only at or after the time at which the tunnel's TTL is over.
  pub fire_timer_never_early :
      (i now : ℕ) (k : GoString)
      → entry_of m k ≢ none
      → entry_of (fire_timer i now m) k ≡ none
      → (due : ℕ) × (due_of m k ≡ some due) × (due ≤ now) × (timer_of m k ≡ some i)
  fire_timer_never_early i now k there gone = elim (Option-cases (lookup i m.timers)) [
    | inl nothing ↦ absurd (ground (arith, fire_timer-entry_of i now k))
    | inr (t, armed) ↦
        let (over, same) = ends_both i now k t armed (ended i now k there gone) in
        (t.due, ground (arith, v.one_to_one k i), over, ground (arith, v.one_to_one k i))
  ]

  reap_absent : (k : GoString) (a : ℕ) → lookup k m.process_entries ≡ none → reap_exited k a m ≡ m
  unfolding reap_exited
  reap_absent k a h = ground arith

  reap_other :
      (k : GoString) (a b : ℕ)
      → lookup k m.process_entries ≡ some b
      → nat_beq b a ≡ false
      → reap_exited k a m ≡ m
  unfolding reap_exited
  reap_other k a b h d = ground arith

  pub reap_exited-IsValid : (k : GoString) (a : ℕ) → IsValid (reap_exited k a m)
  reap_exited-IsValid k a = elim (entry_cases m v k) [
    | inl nothing ↦ rw (reap_absent k a nothing) v
    | inr (b, e, there, at) ↦ elim (Bool-cases (nat_beq b a)) [
      | inl same ↦
          rw (← (nat_beq_iff b a).0 same, reap_present k m b e there at)
            (without_entry-IsValid m v k b e there at m.signalled)
      | inr other ↦ rw (reap_other k a b there other) v
    ]
  ]
