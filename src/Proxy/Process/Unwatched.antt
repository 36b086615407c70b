-- ===== src/Proxy/Process/Unwatched.antt =====
-- The two halves of the end of ensureProcessProxy with another step between them: the timer of the
-- new entry is armed before the entry is in the map.
use capi_shell_mcp.Base.{
  ℕ, ◌≤◌, nat_eq, nat_beq_iff, GoString, str_eq, str_beq_iff, lookup, lookup-insert, lookup-delete,
  insert, delete, none, some, ◌≡◌, ◌≢◌, refl, suc, arith,
}
use capi_shell_mcp.Proxy.Process.{Manager, after_func, store_entry, fire_timer}
use capi_shell_mcp.Proxy.Process.Invariant.{entry_of, key_of, IsValid}

-- The entry with its timer, which is armed.
unfoldable pub arm_entry : GoString → ℕ → ℕ → Manager → Manager
unfolding after_func
arm_entry key process due m =
    let armed = after_func due key m in
    record armed {
      heap = insert armed.next (record { process = process; timer = m.next }) armed.heap;
      next = suc armed.next;
    }

-- The entry is put into the map.
unfoldable pub put_entry : GoString → ℕ → Manager → Manager
put_entry key a m = record m { process_entries = insert key a m.process_entries }

-- With nothing between them the halves are the whole.
pub put_entry-arm_entry :
    (key : GoString) (process due : ℕ) (m : Manager)
    → put_entry key (suc m.next) (arm_entry key process due m) ≡ store_entry key process due m
unfolding put_entry arm_entry store_entry
put_entry-arm_entry key process due m = refl

module _ (m : Manager) (v : IsValid m) (k : GoString) (process due now : ℕ)
    (absent : lookup k m.process_entries ≡ none) (is_due : due ≤ now) where
  fired : fire_timer m.next now (arm_entry k process due m) ≡ record m {
    timers = delete m.next (insert m.next (record { due = due; key = k }) m.timers);
    heap = insert (suc m.next) (record { process = process; timer = m.next }) m.heap;
    next = suc (suc m.next);
  }
  unfolding fire_timer arm_entry
  fired = ground (
    arith,
    absent,
    is_due,
    lookup-insert m.next m.next (record { due = due; key = k }) m.timers,
    nat_beq_iff m.next m.next,
  )

  no_timer_before : (i : ℕ) → key_of m i ≢ some k
  no_timer_before i h = absurd (ground (arith, (v.one_to_one k i).1 h, absent))

  -- If the timer of a new tunnel fires before its entry is in the map, as it may if the TTL is 0, then
  -- after the call the tunnel is there, its process was not signalled, and no timer is armed that
  -- kills by its key: it is never ended by its TTL.
  pub put_entry_after_fire :
      (entry_of (put_entry k (suc m.next) (fire_timer m.next now (arm_entry k process due m))) k
        ≡ some (record { process = process; timer = m.next }))
      × ((put_entry k (suc m.next) (fire_timer m.next now (arm_entry k process due m))).signalled
          ≡ m.signalled)
      × ((i : ℕ)
          → key_of (put_entry k (suc m.next) (fire_timer m.next now (arm_entry k process due m))) i
            ≢ some k)
  unfolding put_entry
  put_entry_after_fire = rw fired (
    ground (
      arith,
      lookup-insert k k (suc m.next) m.process_entries,
      str_beq_iff k k,
      lookup-insert (suc m.next) (suc m.next) (record { process = process; timer = m.next }) m.heap,
      nat_beq_iff (suc m.next) (suc m.next),
    ),
    refl,
    λ i h. no_timer_before i (
        ground (
          arith,
          h,
          lookup-delete m.next i (insert m.next (record { due = due; key = k }) m.timers),
          lookup-insert m.next i (record { due = due; key = k }) m.timers,
          nat_beq_iff m.next i,
        )),
  )
