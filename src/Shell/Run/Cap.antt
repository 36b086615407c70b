-- ===== src/Shell/Run/Cap.antt =====
-- The cap on the output of both streams together, when no Write begins before the one before it has
-- ended.
use capi_shell_mcp.Base.{
  ℕ, ◌+◌, ◌≤◌, ◌<◌, List, [], ◌∷◌, ◌++◌, length, length-append, some, subst, sym, ◌≡◌, arith,
}
use capi_shell_mcp.Shell.{Stream, out_stream, err_stream}
use capi_shell_mcp.Shell.Run.{Part, load, store, finish, Copying, run_parts, new_copying}
use capi_shell_mcp.Shell.Run.Race.{run_parts-append}

-- The parts of a Write with nothing between them.
abbrev pub whole : Stream → List ℕ → List Part
whole s p = load s ∷ store s p ∷ finish s p ∷ []

abbrev pub one_after_another : List (Stream × List ℕ) → List Part
one_after_another [] = []
one_after_another ((s, p) ∷ ws) = whole s p ++ one_after_another ws

abbrev pub stored : Copying → ℕ
stored c = length c.stdout.buf + length c.stderr.buf

-- What is stored was counted and fits.
record HasRoom (max : ℕ) (c : Copying) : Type 0 where
  limited : c.limit ≡ some max
  in_budget : stored c ≤ max
  counted : stored c ≤ c.written

whole-HasRoom :
    (s : Stream) (p : List ℕ) (max : ℕ) (c : Copying)
    → HasRoom max c
    → HasRoom max (run_parts (whole s p) c)
unfolding run_parts
whole-HasRoom out_stream p max c h = ground (arith, length-append c.stdout.buf p)
whole-HasRoom err_stream p max c h = ground (arith, length-append c.stderr.buf p)

all-HasRoom :
    (ws : List (Stream × List ℕ)) (max : ℕ) (c : Copying)
    → HasRoom max c
    → HasRoom max (run_parts (one_after_another ws) c)
all-HasRoom [] max c h = unfold run_parts in h
all-HasRoom ((s, p) ∷ ws) max c h =
    subst (HasRoom max) (sym (run_parts-append (whole s p) (one_after_another ws) c))
      (all-HasRoom ws max (run_parts (whole s p) c) (whole-HasRoom s p max c h))

new-HasRoom : (max : ℕ) → 0 < max → HasRoom max (new_copying max)
unfolding new_copying
new-HasRoom max some_limit = ground arith

-- If every Write, to either stream, ends before the next one begins, both buffers together never hold
-- more than the cap.
pub stored-le-max :
    (max : ℕ) (ws : List (Stream × List ℕ))
    → 0 < max
    → stored (run_parts (one_after_another ws) (new_copying max)) ≤ max
stored-le-max max ws some_limit =
    (all-HasRoom ws max (new_copying max) (new-HasRoom max some_limit)).in_budget
