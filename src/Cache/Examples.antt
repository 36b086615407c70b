-- ===== src/Cache/Examples.antt =====
-- Tests and instances for the cache.
use capi_shell_mcp.Base.{
  ℕ, pos, add_duration, GoString, lit, str_eq, some, List, [], ◌∷◌, ◌≡◌, refl, arith, lookup,
  insert,
}
use capi_shell_mcp.Cache.{TtlCache, get, set}
use capi_shell_mcp.Cache.Laws.{read}
use capi_shell_mcp.Cache.History.{
  Operation, do_get, do_set, do_remove, run, fresh, last_write, read-run,
}

abbrev empty_cache : TtlCache GoString ℕ
empty_cache = record { ttl = pos 5; store = [] }

-- At exactly the expiry time the entry is still returned.
read_at_expiry : (get (lit "a") 15 (set (lit "a") 1 10 empty_cache)).0 ≡ some 1
unfolding get set add_duration lookup insert
read_at_expiry = refl

abbrev three_operations : List (Operation GoString ℕ)
three_operations = do_get (lit "a") 11 ∷ do_remove (lit "b") ∷ do_set (lit "a") 1 10 ∷ []

read-run_example :
    read (lit "a") 12 (run (pos 5) three_operations)
    ≡ fresh (pos 5) 12 (last_write (lit "a") three_operations)
read-run_example = read-run (pos 5) 12 (lit "a") three_operations (omega arith)
