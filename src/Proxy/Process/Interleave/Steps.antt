-- ===== src/Proxy/Process/Interleave/Steps.antt =====
-- The parts of a call, and what holds in every interleaving.
use capi_shell_mcp.Base.{
  ℕ, nat_eq, GoString, str_eq, str_beq_iff, Map, lookup, insert, delete, lookup-insert,
  lookup-delete, some, ◌≡◌, inl, inr, Option-cases, arith, subst, sym,
}
use capi_shell_mcp.Proxy.Process.{
  Manager, StartOutcome, refresh_entry, finish_start, new, running, exited, spawn_failed,
}
use capi_shell_mcp.Proxy.Process.Interleave.{
  System, Pending, refreshing, starting, read_entry, initial,
}
use capi_shell_mcp.Proxy.Process.Interleave.Safe.{IsPending, IsSafe}
use capi_shell_mcp.Proxy.Process.Interleave.Exchange.{
  refresh_lem, exchanged-IsHeap, exchanged-AreWatched, exchanged-IsPending, exchanged-AreOut,
}
use capi_shell_mcp.Proxy.Process.Interleave.Store.{
  stored-IsHeap, stored-AreWatched, stored-IsPending, stored-AreOut,
}

pub initial-IsSafe : IsSafe initial
unfolding new lookup
initial-IsSafe = record {
  heap = record {
    no_dangling = λ k a h. absurd (cc);
    alone = λ j k a h g. absurd (cc);
    own_timer = λ a b e f h g same. absurd (cc);
    address_below = λ a e h. absurd (cc);
    timer_below = λ a e h. absurd (cc);
  };
  watched = λ k a e h g. absurd (cc);
  calls = record {
    read = λ k a h. absurd (cc);
    read_alone = λ j k a h g. absurd (cc);
    absent = λ k h. absurd (cc);
  };
  out = λ a h. absurd h;
}

delete-IsPending :
    (m : Manager) (k : GoString) (pending : Map GoString Pending)
    → IsPending m pending
    → IsPending m (delete k pending)
delete-IsPending m k pending p = record {
  read = λ j b g. p.read j b (ground (arith, lookup-delete k j pending));
  read_alone = λ i j b g. p.read_alone i j b (ground (arith, lookup-delete k j pending));
  absent = λ j g. p.absent j (ground (arith, lookup-delete k j pending));
}

module _ (s : System) (v : IsSafe s) where
  pub begin-IsSafe :
      (k : GoString) → IsSafe (record s { pending = insert k (read_entry k s) s.pending })
  unfolding read_entry
  begin-IsSafe k = record {
    heap = v.heap;
    watched = v.watched;
    calls = record {
      read = λ j b g. ground (
        arith,
        lookup-insert k j (read_entry k s) s.pending,
        v.calls.read j b,
        v.heap.no_dangling k b,
      );
      read_alone = λ i j b g f. ground (
        arith,
        lookup-insert k j (read_entry k s) s.pending,
        v.calls.read_alone i j b,
        v.heap.alone i k b,
        str_beq_iff k j,
      );
      absent = λ j g.
          ground (
            arith,
            lookup-insert k j (read_entry k s) s.pending,
            v.calls.absent j,
            str_beq_iff k j,
          );
    };
    out = v.out;
  }

  pub exchange-IsSafe :
      (k : GoString) (a due : ℕ)
      → lookup k s.pending ≡ some (refreshing a)
      → IsSafe
          (record s { manager = refresh_entry a k due s.manager; pending = delete k s.pending })
  exchange-IsSafe k a due reads = elim (Option-cases (lookup a s.manager.heap)) [
    | inl nothing ↦ absurd (v.calls.read k a reads nothing)
    | inr (e, there) ↦
        subst (λ (m : Manager). IsSafe (record s { manager = m; pending = delete k s.pending }))
          (sym (refresh_lem s.manager v.heap a e k due there))
          (record {
            heap = exchanged-IsHeap s.manager v.heap a e k due there;
            watched =
                exchanged-AreWatched s.manager v.heap a e k due there s.callbacks v.watched
                  (λ j at_key. v.calls.read_alone j k a reads at_key);
            calls = exchanged-IsPending s.manager v.heap a e k due there s.pending v.calls;
            out = exchanged-AreOut s.manager v.heap a e k due there s.killing v.out;
          })
  ]

  pub started-IsSafe :
      (k : GoString) (due : ℕ) (outcome : StartOutcome)
      → lookup k s.pending ≡ some starting
      → IsSafe (record s {
        manager = (finish_start k due outcome s.manager).1;
        pending = delete k s.pending;
      })
  unfolding finish_start
  started-IsSafe k due (spawn_failed e) reads = record {
    heap = v.heap;
    watched = v.watched;
    calls = delete-IsPending s.manager k s.pending v.calls;
    out = v.out;
  }
  started-IsSafe k due (exited code) reads = record {
    heap = v.heap;
    watched = v.watched;
    calls = delete-IsPending s.manager k s.pending v.calls;
    out = v.out;
  }
  started-IsSafe k due (running process) reads =
      let absent = v.calls.absent k reads in
      record {
        heap = stored-IsHeap s.manager v.heap k process due absent;
        watched = stored-AreWatched s.manager v.heap k process due absent s.callbacks v.watched;
        calls = stored-IsPending s.manager v.heap k process due absent s.pending v.calls;
        out = stored-AreOut s.manager v.heap k process due absent s.killing v.out;
      }
