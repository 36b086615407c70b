-- ===== src/Proxy/Process/Ensure.antt =====
-- What a caller of `ensureProcessProxy` is promised.
use capi_shell_mcp.Base.{
  ℕ, ◌+◌, nat_beq_iff, nat_eq, GoString, str_eq, str_beq, str_beq_iff, lookup, Option, none, some,
  if◌then◌else◌, ◌≡◌, refl, arith, Option-cases, inl, inr, ok, err, GoError,
}
use capi_shell_mcp.Proxy.Process.{
  ProcessEntry, Manager, StartOutcome, running, finish_start, ensure_process_proxy, refresh_entry,
  store_entry, new,
}
use capi_shell_mcp.Proxy.Process.Invariant.{entry_of, timer_of, due_of, IsValid}
use capi_shell_mcp.Proxy.Process.Refresh.{
  entry_of-refresh, lookup_timer-refresh, refresh_entry-IsValid,
}
use capi_shell_mcp.Proxy.Process.Store.{entry_of-store, lookup_timer-store, store_entry-IsValid}
use capi_shell_mcp.Proxy.Process.Kill.{entry_cases}

module _ (m : Manager) (v : IsValid m) (k : GoString) (a : ℕ) (e : ProcessEntry)
    (at_key : lookup k m.process_entries ≡ some a) (at_address : lookup a m.heap ≡ some e) where
  due_of-refresh :
      (due : ℕ) (j : GoString)
      → due_of (refresh_entry a k due m) j ≡ (if str_beq k j then some due else due_of m j)
  due_of-refresh due j = elim (Option-cases (timer_of m j)) [
    | inl nothing ↦ ground (
      arith,
      entry_of-refresh m v k a e at_key at_address due j,
      lookup_timer-refresh m v k a e at_key at_address due m.next,
    )
    | inr (i, own) ↦ ground (
      arith,
      entry_of-refresh m v k a e at_key at_address due j,
      lookup_timer-refresh m v k a e at_key at_address due m.next,
      lookup_timer-refresh m v k a e at_key at_address due i,
      v.one_to_one j i,
      v.one_to_one k i,
      v.timers_below i j,
      nat_beq_iff m.next i,
      nat_beq_iff e.timer i,
      str_beq_iff k j,
    )
  ]

module _ (m : Manager) (v : IsValid m) (k : GoString) (process due : ℕ)
    (absent : lookup k m.process_entries ≡ none) where
  due_of-store :
      (j : GoString)
      → due_of (store_entry k process due m) j ≡ (if str_beq k j then some due else due_of m j)
  due_of-store j = elim (Option-cases (timer_of m j)) [
    | inl nothing ↦ ground (
      arith,
      entry_of-store m v k process due absent j,
      lookup_timer-store m v k process due absent m.next,
    )
    | inr (i, own) ↦ ground (
      arith,
      entry_of-store m v k process due absent j,
      lookup_timer-store m v k process due absent m.next,
      lookup_timer-store m v k process due absent i,
      v.one_to_one j i,
      v.timers_below i j,
      nat_beq_iff m.next i,
    )
  ]

-- The process that serves a key.
abbrev pub process_of : Manager → GoString → Option ℕ
process_of m k = elim (entry_of m k) [ none ↦ none | some e ↦ some e.process ]

module _ {W : Type 0} (spawn : W → StartOutcome × W) (clock : W → ℕ) (m : Manager) (k : GoString)
    (ttl : ℕ) (w : W) where
  ensure_again :
      (a : ℕ)
      → lookup k m.process_entries ≡ some a
      → ensure_process_proxy spawn clock k ttl m w ≡ (ok tt, refresh_entry a k (clock w + ttl) m, w)
  unfolding ensure_process_proxy
  ensure_again a h = rw (h, ensure_process_proxy)

  ensure_new :
      lookup k m.process_entries ≡ none
      → ensure_process_proxy spawn clock k ttl m w ≡ (
        (finish_start k (clock (spawn w).1 + ttl) (spawn w).0 m).0,
        (finish_start k (clock (spawn w).1 + ttl) (spawn w).0 m).1,
        (spawn w).1,
      )
  unfolding ensure_process_proxy
  ensure_new h = rw (h, ensure_process_proxy)

  started :
      lookup k m.process_entries ≡ none
      → (ensure_process_proxy spawn clock k ttl m w).0 ≡ ok tt
      → (p : ℕ) × ((spawn w).0 ≡ running p)
  unfolding ensure_process_proxy finish_start
  started nothing h = ground arith

  -- After a successful call on a valid manager the tunnel of the key ends `ttl` after the time of
  -- the call's end, every other key has the deadline and the process that it had, and the manager
  -- is valid.
  pub ensure_process_proxy_deadline :
      (j : GoString)
      → IsValid m
      → (ensure_process_proxy spawn clock k ttl m w).0 ≡ ok tt
      → IsValid (ensure_process_proxy spawn clock k ttl m w).1
        × (due_of (ensure_process_proxy spawn clock k ttl m w).1 j ≡ (
            if str_beq k j
            then some (clock (ensure_process_proxy spawn clock k ttl m w).2 + ttl)
            else due_of m j))
        × (process_of (ensure_process_proxy spawn clock k ttl m w).1 j ≡ (
            if str_beq k j
            then process_of (ensure_process_proxy spawn clock k ttl m w).1 k
            else process_of m j))
  unfolding finish_start
  ensure_process_proxy_deadline j v h = elim (entry_cases m v k) [
    | inr (a, e, there, at) ↦ rw (ensure_again a there) (
      refresh_entry-IsValid m v k a e there at (clock w + ttl),
      due_of-refresh m v k a e there at (clock w + ttl) j,
      ground (
        arith,
        entry_of-refresh m v k a e there at (clock w + ttl) j,
        entry_of-refresh m v k a e there at (clock w + ttl) k,
        str_beq_iff k j,
      ),
    )
    | inl nothing ↦
        let (p, new) = started nothing h in
        let due = clock (spawn w).1 + ttl in
        rw (ensure_new nothing, new)
          (
            store_entry-IsValid m v k p due nothing,
            due_of-store m v k p due nothing j,
            ground (
              arith,
              entry_of-store m v k p due nothing j,
              entry_of-store m v k p due nothing k,
              str_beq_iff k j,
            ),
          )
  ]

  -- In a valid manager a call for a key that has a tunnel succeeds with the same process and
  -- leaves the world alone, so it spawns none.
  pub ensure_process_proxy_reuses :
      (process : ℕ)
      → IsValid m
      → process_of m k ≡ some process
      → ((ensure_process_proxy spawn clock k ttl m w).0 ≡ ok tt)
        × (process_of (ensure_process_proxy spawn clock k ttl m w).1 k ≡ some process)
        × ((ensure_process_proxy spawn clock k ttl m w).2 ≡ w)
  ensure_process_proxy_reuses process v h = elim (entry_cases m v k) [
    | inl nothing ↦ absurd (ground arith)
    | inr (a, e, there, at) ↦ rw (ensure_again a there) (
      refl,
      ground (arith, entry_of-refresh m v k a e there at (clock w + ttl) k, str_beq_iff k k),
      refl,
    )
  ]

  -- A call that fails leaves the manager as it was.
  pub ensure_process_proxy_fails :
      (x : GoError)
      → (ensure_process_proxy spawn clock k ttl m w).0 ≡ err x
      → (ensure_process_proxy spawn clock k ttl m w).1 ≡ m
  unfolding ensure_process_proxy finish_start
  ensure_process_proxy_fails x h = ground arith
