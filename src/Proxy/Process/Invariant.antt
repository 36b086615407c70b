-- ===== src/Proxy/Process/Invariant.antt =====
-- Tunnels and timers belong together one to one.
use capi_shell_mcp.Base.{
  ℕ, ◌<◌, nat_eq, GoString, str_eq, lookup, Option, none, some, ◌≡◌, ◌≢◌, ◌↔◌, arith,
}
use capi_shell_mcp.Proxy.Process.{ProcessEntry, Manager, new}

-- The object that the map has for a key.
abbrev pub entry_of : Manager → GoString → Option ProcessEntry
entry_of m k = elim (lookup k m.process_entries) [ none ↦ none | some a ↦ lookup a m.heap ]

abbrev pub timer_of : Manager → GoString → Option ℕ
timer_of m k = elim (entry_of m k) [ none ↦ none | some e ↦ some e.timer ]

abbrev pub key_of : Manager → ℕ → Option GoString
key_of m i = elim (lookup i m.timers) [ none ↦ none | some t ↦ some t.key ]

abbrev pub due_of : Manager → GoString → Option ℕ
due_of m k = elim (timer_of m k) [
  | none ↦ none
  | some i ↦ elim (lookup i m.timers) [ none ↦ none | some t ↦ some t.due ]
]

pub record IsValid (m : Manager) : Type 0 where
  pub one_to_one : (k : GoString) (i : ℕ) → (timer_of m k ≡ some i) ↔ (key_of m i ≡ some k)
  pub no_dangling :
      (k : GoString) (a : ℕ) → lookup k m.process_entries ≡ some a → lookup a m.heap ≢ none
  pub timers_below : (i : ℕ) (k : GoString) → key_of m i ≡ some k → i < m.next
  pub heap_below : (a : ℕ) (e : ProcessEntry) → lookup a m.heap ≡ some e → a < m.next

pub new-IsValid : IsValid new
unfolding new lookup
new-IsValid = record {
  one_to_one = λ k i. ground arith;
  no_dangling = λ k a h. absurd (cc);
  timers_below = λ i k h. absurd (cc);
  heap_below = λ a e h. absurd (cc);
}
