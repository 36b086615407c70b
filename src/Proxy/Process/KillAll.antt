-- ===== src/Proxy/Process/KillAll.antt =====
-- The tear-down of all tunnels.
use capi_shell_mcp.Base.{
  ℕ, nat_eq, GoString, str_eq, str_beq_iff, lookup, keys, lookup-keys, contains, none,
  if◌then◌else◌, List, [], ◌∷◌, ◌≡◌, refl, arith, Option-cases, inl, inr,
}
use capi_shell_mcp.Proxy.Process.{Manager, kill_process_entry, kill_each, kill_all_process_proxies}
use capi_shell_mcp.Proxy.Process.Invariant.{entry_of, IsValid}
use capi_shell_mcp.Proxy.Process.Kill.{kill_process_entry_lem, kill_process_entry-IsValid}

kill_each-IsValid : (ks : List GoString) (m : Manager) → IsValid m → IsValid (kill_each ks m)
unfolding kill_each
kill_each-IsValid [] m v = v
kill_each-IsValid (k ∷ ks) m v =
    kill_each-IsValid ks (kill_process_entry k m) (kill_process_entry-IsValid m v k)

kill_each-entry_of :
    (ks : List GoString) (m : Manager)
    → IsValid m
    → (j : GoString) → entry_of (kill_each ks m) j ≡ (if contains ks j then none else entry_of m j)
unfolding kill_each contains
kill_each-entry_of [] m v j = refl
kill_each-entry_of (k ∷ ks) m v j = ground (
  arith,
  kill_each-entry_of ks (kill_process_entry k m) (kill_process_entry-IsValid m v k) j,
  (kill_process_entry_lem m v k j).0,
  str_beq_iff k j,
  str_beq_iff j k,
)

no_timer :
    (m : Manager)
    → IsValid m
    → ((k : GoString) → entry_of m k ≡ none)
    → (i : ℕ) → lookup i m.timers ≡ none
no_timer m v gone i = elim (Option-cases (lookup i m.timers)) [
  | inl nothing ↦ nothing
  | inr (t, armed) ↦ absurd (ground (arith, v.one_to_one t.key i, gone t.key))
]

-- After the tear-down of a valid manager no tunnel is left, no timer is armed, and the manager is
-- valid.
pub kill_all_process_proxies_lem :
    (m : Manager)
    → IsValid m
    → IsValid (kill_all_process_proxies m)
      × ((k : GoString) → entry_of (kill_all_process_proxies m) k ≡ none)
      × ((i : ℕ) → lookup i (kill_all_process_proxies m).timers ≡ none)
unfolding kill_all_process_proxies
kill_all_process_proxies_lem m v =
    let after = kill_each-IsValid (keys m.process_entries) m v in
    let gone : ((k : GoString) → entry_of (kill_each (keys m.process_entries) m) k ≡ none) = λ k.
      ground (
        arith,
        kill_each-entry_of (keys m.process_entries) m v k,
        lookup-keys k m.process_entries,
      ) in
    (after, gone, λ i. no_timer (kill_each (keys m.process_entries) m) after gone i)
