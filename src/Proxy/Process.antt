-- ===== src/Proxy/Process.antt =====
-- The tunnels of internal/proxy/manager.go that are child processes. The map of the manager holds
-- pointers, so an entry is an address and the objects stand on a heap; a timer of the clock is a
-- number, and `timers` has those that are armed, with the key that their callback kills.
pub mod Invariant
pub mod Refresh
pub mod Store
pub mod Kill
pub mod Fire
pub mod KillAll
pub mod Ensure
pub mod Reach
pub mod Race
pub mod Unwatched
pub mod Interleave
use capi_shell_mcp.Base.{
  ℕ, ◌+◌, nat_beq, nat_eq, leb, GoString, lit, str_eq, Map, lookup, insert, delete, keys, Option,
  none, some, if◌then◌else◌, List, [], ◌∷◌, ◌++◌, Result, ok, err, wrapped, exited_early, GoError,
  suc,
}

pub record ProcessEntry : Type 0 where
  pub process : ℕ
  pub timer : ℕ

pub record ArmedTimer : Type 0 where
  pub due : ℕ
  pub key : GoString

pub record Manager : Type 0 where
  pub process_entries : Map GoString ℕ
  pub heap : Map ℕ ProcessEntry
  pub timers : Map ℕ ArmedTimer
  -- The next address and the next timer.
  pub next : ℕ
  -- The processes that were sent SIGTERM, the last in front.
  pub signalled : List ℕ

unfoldable pub target_key : GoString → GoString → GoString
target_key api_server_ip api_server_port = api_server_ip ++ (b':' ∷ api_server_port)

-- timer.Stop()
unfoldable pub stop_timer : ℕ → Manager → Manager
stop_timer i m = record m { timers = delete i m.timers }

-- clock.AfterFunc(ttl, func() { m.killProcessEntry(key) }), at a time and a duration.
unfoldable pub after_func : ℕ → GoString → Manager → Manager
after_func due key m = record m {
  timers = insert m.next (record { due = due; key = key }) m.timers;
  next = suc m.next;
}

-- The branch of `ensureProcessProxy` for a key that is there: the TTL starts again.
unfoldable pub refresh_entry : ℕ → GoString → ℕ → Manager → Manager
unfolding stop_timer after_func
refresh_entry a key due m = elim (lookup a m.heap) [
  | none ↦ m
  | some e ↦
      let stopped = stop_timer e.timer m in
      record (after_func due key stopped) {
        heap = insert a (record e { timer = stopped.next }) stopped.heap;
      }
]

-- Its end for a new process: the entry is made with its timer and put into the map.
unfoldable pub store_entry : GoString → ℕ → ℕ → Manager → Manager
unfolding after_func
store_entry key process due m =
    let armed = after_func due key m in
    record armed {
      process_entries = insert key armed.next armed.process_entries;
      heap = insert armed.next (record { process = process; timer = m.next }) armed.heap;
      next = suc armed.next;
    }

-- What the process did in the startup window: `exited` with its code, `none` standing for -1.
pub data StartOutcome : Type 0 where
  spawn_failed : GoError → StartOutcome
  exited : Option ℕ → StartOutcome
  running : ℕ → StartOutcome

unfoldable pub finish_start : GoString → ℕ → StartOutcome → Manager → Result (Unit {0}) × Manager
finish_start key due (spawn_failed e) m = (err (wrapped (lit "proxy: spawning sshuttle") e), m)
finish_start key due (exited code) m = (err (exited_early code), m)
finish_start key due (running process) m = (ok tt, store_entry key process due m)

-- `spawn` starts the process and waits for the first of its exit and the end of the startup window;
-- `clock` is the time. The call is with nothing between its parts; the code releases the mutex after
-- the look-up, and Race, Unwatched and Interleave have the parts apart.
module _ {W : Type 0} (spawn : W → StartOutcome × W) (clock : W → ℕ) where
  unfoldable pub ensure_process_proxy : GoString → ℕ → Manager → W → Result (Unit {0}) × Manager × W
  unfolding finish_start
  ensure_process_proxy key ttl m w = elim (lookup key m.process_entries) [
    | some a ↦ (ok tt, refresh_entry a key (clock w + ttl) m, w)
    | none ↦
        let (outcome, w') = spawn w in
        let (r, m') = finish_start key (clock w' + ttl) outcome m in (r, m', w')
  ]

unfoldable pub signal_and_stop : ℕ → Manager → Manager
unfolding stop_timer
signal_and_stop a m = elim (lookup a m.heap) [
  | none ↦ m
  | some e ↦ record (stop_timer e.timer m) { signalled = e.process ∷ m.signalled }
]

unfoldable pub kill_process_entry : GoString → Manager → Manager
unfolding signal_and_stop
kill_process_entry key m = elim (lookup key m.process_entries) [
  | none ↦ m
  | some a ↦ signal_and_stop a (record m { process_entries = delete key m.process_entries })
]

-- A timer whose time has come fires: it is no longer armed, and its callback runs with nothing in
-- between. In Interleave the firing and the callback are apart.
unfoldable pub fire_timer : ℕ → ℕ → Manager → Manager
unfolding kill_process_entry
fire_timer i now m = elim (lookup i m.timers) [
  | none ↦ m
  | some t ↦
      if leb t.due now
      then kill_process_entry t.key (record m { timers = delete i m.timers })
      else m
]

-- The goroutine that waits for the exit of the process of the entry at `a`.
unfoldable pub reap_exited : GoString → ℕ → Manager → Manager
unfolding stop_timer
reap_exited key a m = elim (lookup key m.process_entries) [
  | none ↦ m
  | some cur ↦
      if nat_beq cur a
      then (let m' = record m { process_entries = delete key m.process_entries } in
          elim (lookup a m.heap) [ none ↦ m' | some e ↦ stop_timer e.timer m' ])
      else m
]

kill_each : List GoString → Manager → Manager
kill_each [] m = m
kill_each (k ∷ ks) m = kill_each ks (kill_process_entry k m)

unfoldable pub kill_all_process_proxies : Manager → Manager
unfolding kill_each
kill_all_process_proxies m = kill_each (keys m.process_entries) m

unfoldable pub new : Manager
new = record { process_entries = []; heap = []; timers = []; next = 0; signalled = [] }
