-- ===== src/Proxy/Process/Reach.antt =====
-- Any sequence of the manager's operations, each as one step.
use capi_shell_mcp.Base.{ℕ, nat_eq, GoString, str_eq, ◌≡◌, inl, inr, Result-cases}
use capi_shell_mcp.Proxy.Process.{
  Manager, StartOutcome, ensure_process_proxy, fire_timer, reap_exited, kill_all_process_proxies,
  new,
}
use capi_shell_mcp.Proxy.Process.Invariant.{IsValid, new-IsValid}
use capi_shell_mcp.Proxy.Process.Ensure.{ensure_process_proxy_deadline, ensure_process_proxy_fails}
use capi_shell_mcp.Proxy.Process.Fire.{fire_timer-IsValid, reap_exited-IsValid}
use capi_shell_mcp.Proxy.Process.KillAll.{kill_all_process_proxies_lem}

-- One operation: a caller asks for a tunnel, and its new process does what `outcome` says; a timer
-- of the clock fires at a time; a process exits, and the goroutine of its entry learns of it; the
-- daemon shuts down.
pub data Step (m m' : Manager) : Type 0 where
  ensure :
      (k : GoString) (ttl now : ℕ) (outcome : StartOutcome)
      → m' ≡ (ensure_process_proxy {W = Unit {0}} (λ _. (outcome, tt)) (λ _. now) k ttl m tt).1
      → Step m m'
  fire : (i now : ℕ) → m' ≡ fire_timer i now m → Step m m'
  reap : (k : GoString) (a : ℕ) → m' ≡ reap_exited k a m → Step m m'
  tear_down : m' ≡ kill_all_process_proxies m → Step m m'

pub data Reachable : Manager → Type 0 where
  start : (m : Manager) → m ≡ new → Reachable m
  next : {m m' : Manager} → Reachable m → Step m m' → Reachable m'

ensure-IsValid :
    (m : Manager) (v : IsValid m) (k : GoString) (ttl now : ℕ) (outcome : StartOutcome)
    → IsValid (ensure_process_proxy {W = Unit {0}} (λ _. (outcome, tt)) (λ _. now) k ttl m tt).1
ensure-IsValid m v k ttl now outcome =
    elim (Result-cases
      (ensure_process_proxy {W = Unit {0}} (λ _. (outcome, tt)) (λ _. now) k ttl m tt).0) [
        | inl (r, good) ↦ (ensure_process_proxy_deadline _ _ m k ttl tt k v good).0
        | inr (x, bad) ↦
            rw
              (ensure_process_proxy_fails {W = Unit {0}} (λ _. (outcome, tt)) (λ _. now) m k ttl tt
                x bad)
              v
      ]

Step-IsValid : {m m' : Manager} → Step m m' → IsValid m → IsValid m'
Step-IsValid {m} (ensure k ttl now outcome e) v = rw e (ensure-IsValid m v k ttl now outcome)
Step-IsValid {m} (fire i now e) v = rw e (fire_timer-IsValid m v i now)
Step-IsValid {m} (reap k a e) v = rw e (reap_exited-IsValid m v k a)
Step-IsValid {m} (tear_down e) v = rw e (kill_all_process_proxies_lem m v).0

-- If the operations follow one another, each as a whole with nothing between its parts, then in every
-- manager that they reach from a new one, tunnels and armed timers belong together one to one: the
-- timer of each tunnel is armed for that tunnel's key, and every armed timer is that of the tunnel of
-- its key.
pub Reachable-IsValid : (m : Manager) → Reachable m → IsValid m
Reachable-IsValid m (start _ e) = rw e new-IsValid
Reachable-IsValid m (next r s) = Step-IsValid s (Reachable-IsValid _ r)
