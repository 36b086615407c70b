-- ===== src/Proxy/Process/Interleave/Ends.antt =====
-- The parts of callbacks, tear-downs and exits, and what holds in every interleaving.
use capi_shell_mcp.Base.{
  ℕ, ◌<◌, nat_eq, nat_beq, nat_beq_iff, GoString, str_eq, str_beq_iff, lookup, lookup-delete, none,
  some, List, ◌∷◌, ◌++◌, ◌≡◌, ◌≢◌, inl, inr, Elem, Elem-append, Option-cases, Bool-cases, arith,
  refl, ◌∙◌, subst, sym,
}
use capi_shell_mcp.Proxy.Process.{
  ProcessEntry, ArmedTimer, stop_timer, signal_and_stop, reap_exited,
}
use capi_shell_mcp.Proxy.Process.Interleave.{System, take_out}
use capi_shell_mcp.Proxy.Process.Interleave.Safe.{AreWatched, IsSafe}
use capi_shell_mcp.Proxy.Process.Interleave.Removal.{
  taken, taken-IsHeap, taken-AreWatched, taken-IsPending, taken-AreOut, taken_out, without_callback,
  disarmed-IsHeap, disarmed-IsPending, disarmed-AreWatched, due-AreWatched,
}

module _ (s : System) (v : IsSafe s) where
  pub take_out-IsSafe : (k : GoString) → IsSafe (take_out k s)
  unfolding take_out
  take_out-IsSafe k = elim (Option-cases (lookup k s.manager.process_entries)) [
    | inl nothing ↦ rw (nothing, take_out) v
    | inr (a, at_key) ↦
        rw (at_key, take_out)
          (record {
            heap = taken-IsHeap s.manager v.heap k;
            watched = taken-AreWatched s.manager v.heap k s.callbacks v.watched;
            calls = taken-IsPending s.manager v.heap k s.pending v.calls;
            out = λ b g. elim g [
              | inl same ↦
                  subst
                    (λ (x : ℕ).
                      (x < s.manager.next)
                      × ((j : GoString)
                          → lookup j (taken s.manager v.heap k).process_entries ≢ some x))
                    (sym same) (taken_out s.manager v.heap k a at_key)
              | inr before ↦ taken-AreOut s.manager v.heap k s.killing v.out b before
            ];
          })
  ]

  take_out-absent : (k : GoString) → lookup k (take_out k s).manager.process_entries ≡ none
  unfolding take_out
  take_out-absent k = ground (arith, lookup-delete k k s.manager.process_entries, str_beq_iff k k)

  take_out_callbacks :
      (k : GoString) (cs : List GoString)
      → take_out k (record s { callbacks = cs }) ≡ record (take_out k s) { callbacks = cs }
  unfolding take_out
  take_out_callbacks k cs = ground arith

  out_callbacks : (k : GoString) → (take_out k s).callbacks ≡ s.callbacks
  unfolding take_out
  out_callbacks k = ground arith

  pub calls_back-IsSafe :
      (k : GoString) (before after : List GoString)
      → s.callbacks ≡ before ++ k ∷ after
      → IsSafe (take_out k (record s { callbacks = before ++ after }))
  calls_back-IsSafe k before after waiting =
      let u = take_out-IsSafe k in
      subst IsSafe (sym (take_out_callbacks k (before ++ after))) (record {
        heap = u.heap;
        watched =
            without_callback (take_out k s).manager k before after (take_out-absent k)
              (subst (AreWatched (take_out k s).manager) (out_callbacks k ∙ waiting) u.watched);
        calls = u.calls;
        out = u.out;
      })

  pub comes_due-IsSafe :
      (i : ℕ) (t : ArmedTimer)
      → lookup i s.manager.timers ≡ some t
      → IsSafe (record s { manager = stop_timer i s.manager; callbacks = t.key ∷ s.callbacks })
  unfolding stop_timer
  comes_due-IsSafe i t armed = record {
    heap = disarmed-IsHeap s.manager v.heap i s.manager.signalled;
    watched = due-AreWatched s.manager v.heap i s.manager.signalled s.callbacks t armed v.watched;
    calls = disarmed-IsPending s.manager v.heap i s.manager.signalled s.pending v.calls;
    out = v.out;
  }

  pub ends-IsSafe :
      (a : ℕ) (before after : List ℕ)
      → s.killing ≡ before ++ a ∷ after
      → IsSafe (record s { manager = signal_and_stop a s.manager; killing = before ++ after })
  unfolding signal_and_stop stop_timer
  ends-IsSafe a before after waiting =
      let still : ((b : ℕ) → Elem b (before ++ after) → Elem b s.killing) = λ b g.
        subst (Elem b) (sym waiting) (
          (Elem-append b before (a ∷ after)).1 (elim ((Elem-append b before after).0 g) [
            | inl early ↦ inl early
            | inr late ↦ inr (inr late)
          ])) in
      let listed =
        subst (Elem a) (sym waiting) ((Elem-append a before (a ∷ after)).1 (inr (inl refl))) in
      elim (Option-cases (lookup a s.manager.heap)) [
        | inl nothing ↦
            rw (nothing, signal_and_stop)
              (record {
                heap = v.heap;
                watched = v.watched;
                calls = v.calls;
                out = λ b g. v.out b (still b g);
              })
        | inr (e, there) ↦
            rw (there, signal_and_stop)
              (record {
                heap = disarmed-IsHeap s.manager v.heap e.timer (e.process ∷ s.manager.signalled);
                watched =
                    disarmed-AreWatched s.manager v.heap e.timer (e.process ∷ s.manager.signalled)
                      s.callbacks v.watched
                      λ j b f at_key at_address same. (v.out a listed).1 j (
                        subst (λ (x : ℕ). lookup j s.manager.process_entries ≡ some x)
                          (v.heap.own_timer b a f e at_address there same) at_key);
                calls =
                    disarmed-IsPending s.manager v.heap e.timer (e.process ∷ s.manager.signalled)
                      s.pending v.calls;
                out = λ b g. v.out b (still b g);
              })
      ]

  -- The entry that is reaped is live, so it is there with its timer.
  reaped-IsSafe :
      (k : GoString) (a : ℕ) (e : ProcessEntry)
      → lookup k s.manager.process_entries ≡ some a
      → lookup a s.manager.heap ≡ some e
      → IsSafe (record s { manager = stop_timer e.timer (taken s.manager v.heap k) })
  unfolding stop_timer
  reaped-IsSafe k a e at_key there =
      let m = taken s.manager v.heap k in
      let h = taken-IsHeap s.manager v.heap k in
      record {
        heap = disarmed-IsHeap m h e.timer s.manager.signalled;
        watched =
            disarmed-AreWatched m h e.timer s.manager.signalled s.callbacks
              (taken-AreWatched s.manager v.heap k s.callbacks v.watched)
              λ j b f at_j at_address same. (taken_out s.manager v.heap k a at_key).1 j (
                subst (λ (x : ℕ). lookup j m.process_entries ≡ some x)
                  (v.heap.own_timer b a f e at_address there same) at_j);
        calls =
            disarmed-IsPending m h e.timer s.manager.signalled s.pending
              (taken-IsPending s.manager v.heap k s.pending v.calls);
        out = taken-AreOut s.manager v.heap k s.killing v.out;
      }

  pub reaps-IsSafe :
      (k : GoString) (a : ℕ) → IsSafe (record s { manager = reap_exited k a s.manager })
  unfolding reap_exited
  reaps-IsSafe k a = elim (Option-cases (lookup k s.manager.process_entries)) [
    | inl nothing ↦ rw (nothing, reap_exited) v
    | inr (b, at_key) ↦ elim (Bool-cases (nat_beq b a)) [
      | inr other ↦ rw (at_key, other, reap_exited) v
      | inl same ↦ elim (Option-cases (lookup b s.manager.heap)) [
        | inl nothing ↦ absurd (v.heap.no_dangling k b at_key nothing)
        | inr (e, there) ↦
            let at_a : lookup a s.manager.heap ≡ some e =
              subst (λ (x : ℕ). lookup x s.manager.heap ≡ some e) ((nat_beq_iff b a).0 same)
                there in
            rw (at_key, same, at_a, reap_exited) (reaped-IsSafe k b e at_key there)
      ]
    ]
  ]
