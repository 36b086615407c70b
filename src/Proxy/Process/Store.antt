-- ===== src/Proxy/Process/Store.antt =====
-- A new tunnel is put into the map.
use capi_shell_mcp.Base.{
  ℕ, ◌<◌, nat_beq, nat_beq_iff, nat_eq, GoString, str_eq, str_beq, str_beq_iff, lookup,
  lookup-insert, none, some, if◌then◌else◌, ◌≡◌, ◌≢◌, refl, arith, suc, Option-cases, inl, inr,
}
use capi_shell_mcp.Proxy.Process.{Manager, store_entry}
use capi_shell_mcp.Proxy.Process.Invariant.{entry_of, IsValid}

module _ (m : Manager) (v : IsValid m) (k : GoString) (process due : ℕ)
    (absent : lookup k m.process_entries ≡ none) where
  store_entries :
      (j : GoString)
      → lookup j (store_entry k process due m).process_entries
        ≡ (if str_beq k j then some (suc m.next) else lookup j m.process_entries)
  unfolding store_entry
  store_entries j = lookup-insert k j (suc m.next) m.process_entries

  store_heap :
      (b : ℕ)
      → lookup b (store_entry k process due m).heap ≡ (
          if nat_beq (suc m.next) b
          then some (record { process = process; timer = m.next })
          else lookup b m.heap)
  unfolding store_entry
  store_heap b = lookup-insert (suc m.next) b (record { process = process; timer = m.next }) m.heap

  store_next : (store_entry k process due m).next ≡ suc (suc m.next)
  unfolding store_entry
  store_next = refl

  below : (b : ℕ) → lookup b m.heap ≢ none → b < m.next
  below b h = elim (Option-cases (lookup b m.heap)) [
    | inl nothing ↦ absurd (h nothing)
    | inr (f, there) ↦ v.heap_below b f there
  ]

  pub entry_of-store :
      (j : GoString)
      → entry_of (store_entry k process due m) j ≡ (
          if str_beq k j then some (record { process = process; timer = m.next }) else entry_of m j)
  entry_of-store j = elim (Option-cases (lookup j m.process_entries)) [
    | inl nothing ↦ ground (arith, store_entries j, store_heap (suc m.next))
    | inr (b, there) ↦ ground (
      arith,
      store_entries j,
      store_heap (suc m.next),
      store_heap b,
      below b,
      v.no_dangling j b there,
      Option-cases (lookup b m.heap),
    )
  ]

  pub lookup_timer-store :
      (i : ℕ)
      → lookup i (store_entry k process due m).timers
        ≡ (if nat_beq m.next i then some (record { due = due; key = k }) else lookup i m.timers)
  unfolding store_entry
  lookup_timer-store i = lookup-insert m.next i (record { due = due; key = k }) m.timers

  pub store_entry-IsValid : IsValid (store_entry k process due m)
  store_entry-IsValid = record {
    one_to_one = λ j i. ground (
      arith,
      entry_of-store j,
      lookup_timer-store i,
      v.one_to_one j i,
      v.one_to_one k i,
      v.timers_below m.next j,
      v.timers_below i j,
      str_beq_iff k j,
      nat_beq_iff m.next i,
    );
    no_dangling = λ j b h. ground (arith, store_entries j, store_heap b, v.no_dangling j b);
    timers_below = λ i j h.
        ground (arith, store_next, lookup_timer-store i, v.timers_below i j, nat_beq_iff m.next i);
    heap_below = λ b f h.
        ground (arith, store_next, store_heap b, v.heap_below b f, nat_beq_iff (suc m.next) b);
  }
