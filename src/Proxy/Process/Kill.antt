-- ===== src/Proxy/Process/Kill.antt =====
-- A tunnel goes, with its timer.
use capi_shell_mcp.Base.{
  ℕ, nat_beq_iff, nat_eq, GoString, str_eq, str_beq, str_beq_iff, lookup, delete, lookup-delete,
  none, some, if◌then◌else◌, List, ◌∷◌, ◌≡◌, arith, Option-cases, inl, inr, ◌⊎◌,
}
use capi_shell_mcp.Proxy.Process.{ProcessEntry, Manager, kill_process_entry, reap_exited}
use capi_shell_mcp.Proxy.Process.Invariant.{entry_of, IsValid}

pub kill_present :
    (k : GoString) (m : Manager) (a : ℕ) (e : ProcessEntry)
    → lookup k m.process_entries ≡ some a
    → lookup a m.heap ≡ some e
    → kill_process_entry k m ≡ record m {
      process_entries = delete k m.process_entries;
      timers = delete e.timer m.timers;
      signalled = e.process ∷ m.signalled;
    }
unfolding kill_process_entry
kill_present k m a e h g = ground arith

-- An entry goes with its timer.
abbrev pub without_entry : GoString → ProcessEntry → List ℕ → Manager → Manager
without_entry k e sent m = record m {
  process_entries = delete k m.process_entries;
  timers = delete e.timer m.timers;
  signalled = sent;
}

module _ (m : Manager) (v : IsValid m) (k : GoString) (a : ℕ) (e : ProcessEntry)
    (at_key : lookup k m.process_entries ≡ some a) (at_address : lookup a m.heap ≡ some e) where
  pub without_entry-IsValid : (sent : List ℕ) → IsValid (without_entry k e sent m)
  without_entry-IsValid sent = record {
    one_to_one = λ j i. ground (
      arith,
      lookup-delete k j m.process_entries,
      lookup-delete e.timer i m.timers,
      v.one_to_one k e.timer,
      v.one_to_one j i,
      v.one_to_one k i,
      v.one_to_one j e.timer,
      str_beq_iff k j,
      nat_beq_iff e.timer i,
    );
    no_dangling = λ j b h. v.no_dangling j b (ground (arith, lookup-delete k j m.process_entries));
    timers_below = λ i j h. v.timers_below i j (ground (arith, lookup-delete e.timer i m.timers));
    heap_below = v.heap_below;
  }

  pub entry_of-without_entry :
      (sent : List ℕ) (j : GoString)
      → entry_of (without_entry k e sent m) j ≡ (if str_beq k j then none else entry_of m j)
  entry_of-without_entry sent j = ground (arith, lookup-delete k j m.process_entries)

pub kill_absent :
    (k : GoString) (m : Manager) → lookup k m.process_entries ≡ none → kill_process_entry k m ≡ m
unfolding kill_process_entry
kill_absent k m h = ground arith

pub reap_present :
    (k : GoString) (m : Manager) (a : ℕ) (e : ProcessEntry)
    → lookup k m.process_entries ≡ some a
    → lookup a m.heap ≡ some e
    → reap_exited k a m ≡ without_entry k e m.signalled m
unfolding reap_exited
reap_present k m a e h g = ground (arith, nat_beq_iff a a)

-- The objects of a valid manager.
pub entry_cases :
    (m : Manager) (v : IsValid m) (k : GoString)
    → (lookup k m.process_entries ≡ none)
      ⊎ ((a : ℕ) × (e : ProcessEntry) × (lookup k m.process_entries ≡ some a)
          × (lookup a m.heap ≡ some e))
entry_cases m v k = elim (Option-cases (lookup k m.process_entries)) [
  | inl nothing ↦ inl nothing
  | inr (a, there) ↦ elim (Option-cases (lookup a m.heap)) [
    | inl nothing ↦ absurd (v.no_dangling k a there nothing)
    | inr (e, at) ↦ inr (a, e, there, at)
  ]
]

module _ (m : Manager) (v : IsValid m) (k : GoString) where
  -- Killing the tunnel of a key takes that tunnel out of the map and leaves the others, and sends
  -- SIGTERM to its process and to no other.
  pub kill_process_entry_lem :
      (j : GoString)
      → (entry_of (kill_process_entry k m) j ≡ (if str_beq k j then none else entry_of m j))
        × ((kill_process_entry k m).signalled
            ≡ elim (entry_of m k) [ none ↦ m.signalled | some e ↦ e.process ∷ m.signalled ])
  kill_process_entry_lem j = elim (entry_cases m v k) [
    | inl nothing ↦ rw (kill_absent k m nothing) (ground (arith, str_beq_iff k j), ground arith)
    | inr (a, e, there, at) ↦
        rw (kill_present k m a e there at)
          (entry_of-without_entry m v k a e there at (e.process ∷ m.signalled) j, ground arith)
  ]

  pub kill_process_entry-IsValid : IsValid (kill_process_entry k m)
  kill_process_entry-IsValid = elim (entry_cases m v k) [
    | inl nothing ↦ rw (kill_absent k m nothing) v
    | inr (a, e, there, at) ↦
        rw (kill_present k m a e there at)
          (without_entry-IsValid m v k a e there at (e.process ∷ m.signalled))
  ]
