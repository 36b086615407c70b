-- ===== src/Shell/Run/Race.antt =====
-- The counter of the cap, when Writes to the two streams overlap.
use capi_shell_mcp.Base.{
  ℕ, zero, suc, ◌+◌, ◌*◌, ◌≤◌, ◌<◌, List, [], ◌∷◌, ◌++◌, length, false, some, append_assoc,
  append-nil, sym, ap, ◌≡◌, ◌∙◌, refl, arith,
}
use capi_shell_mcp.Shell.{out_stream, err_stream}
use capi_shell_mcp.Shell.Run.{
  Part, load, store, finish, Copying, run_part, run_parts, new_copying, any_write_failed,
}

-- Both goroutines read the counter before either of them stores its sum.
abbrev pub overlapping : List ℕ → List ℕ → List Part
overlapping p q =
    load out_stream
    ∷ load err_stream
    ∷ store out_stream p
    ∷ store err_stream q
    ∷ finish out_stream p
    ∷ finish err_stream q
    ∷ []

abbrev pub rounds : ℕ → List ℕ → List ℕ → List Part
rounds zero p q = []
rounds (suc n) p q = overlapping p q ++ rounds n p q

abbrev pub repeated : ℕ → List ℕ → List ℕ
repeated zero p = []
repeated (suc n) p = p ++ repeated n p

pub run_parts-append :
    (ps qs : List Part) (c : Copying) → run_parts (ps ++ qs) c ≡ run_parts qs (run_parts ps c)
unfolding run_parts
run_parts-append [] qs c = refl
run_parts-append (p ∷ ps) qs c = run_parts-append ps qs (run_part p c)

-- No Write has failed yet, and there is room under the cap.
record IsGoing (max room : ℕ) (c : Copying) : Type 0 where
  limited : c.limit ≡ some max
  stdout_going : c.stdout.failed ≡ false
  stderr_going : c.stderr.failed ≡ false
  fits : c.written + room ≤ max

overlapped :
    (p q : List ℕ) (max room : ℕ) (c : Copying)
    → IsGoing max (length q + room) c
    → IsGoing max room (run_parts (overlapping p q) c)
      × ((run_parts (overlapping p q) c).stdout.buf ≡ c.stdout.buf ++ p)
      × ((run_parts (overlapping p q) c).stderr.buf ≡ c.stderr.buf ++ q)
unfolding run_parts
overlapped p q max room c g = ground arith

run_parts-nil : (c : Copying) → run_parts [] c ≡ c
unfolding run_parts
run_parts-nil c = refl

rounds-IsGoing :
    (n : ℕ) (p q : List ℕ) (max : ℕ) (c : Copying)
    → IsGoing max (n * length q) c
    → IsGoing max 0 (run_parts (rounds n p q) c)
      × ((run_parts (rounds n p q) c).stdout.buf ≡ c.stdout.buf ++ repeated n p)
      × ((run_parts (rounds n p q) c).stderr.buf ≡ c.stderr.buf ++ repeated n q)
rounds-IsGoing zero p q max c g = rw (run_parts-nil c) (
  record {
    limited = g.limited;
    stdout_going = g.stdout_going;
    stderr_going = g.stderr_going;
    fits = omega (arith, g.fits);
  },
  sym (append-nil c.stdout.buf),
  sym (append-nil c.stderr.buf),
)
rounds-IsGoing (suc n) p q max c g =
    let once = run_parts (overlapping p q) c in
    let first : IsGoing max (length q + n * length q) c = record {
      limited = g.limited;
      stdout_going = g.stdout_going;
      stderr_going = g.stderr_going;
      fits = omega (arith, g.fits);
    } in
    let (going, o, e) = overlapped p q max (n * length q) c first in
    let (gone, os, es) = rounds-IsGoing n p q max once going in
    rw (run_parts-append (overlapping p q) (rounds n p q) c) (
      gone,
      os ∙ ap (λ (x : List ℕ). x ++ repeated n p) o ∙ append_assoc c.stdout.buf p (repeated n p),
      es ∙ ap (λ (x : List ℕ). x ++ repeated n q) e ∙ append_assoc c.stderr.buf q (repeated n q),
    )

new-IsGoing : (max room : ℕ) → 0 < max → room ≤ max → IsGoing max room (new_copying max)
unfolding new_copying
new-IsGoing max room some_limit fits = ground arith

-- The cap is no bound if Writes overlap: if n chunks of stderr fit under it, and the Writes of n chunks
-- of stdout, of any length, each overlap with one of them, then all of both is stored and no Write
-- fails.
pub overlapping_writes_uncapped :
    (n max : ℕ) (p q : List ℕ)
    → 0 < max
    → n * length q ≤ max
    → (any_write_failed (run_parts (rounds n p q) (new_copying max)) ≡ false)
      × ((run_parts (rounds n p q) (new_copying max)).stdout.buf ≡ repeated n p)
      × ((run_parts (rounds n p q) (new_copying max)).stderr.buf ≡ repeated n q)
unfolding new_copying
overlapping_writes_uncapped n max p q some_limit fits =
    let (g, o, e) =
      rounds-IsGoing n p q max (new_copying max) (new-IsGoing max (n * length q) some_limit fits) in
    (ground (arith, g.stdout_going, g.stderr_going), o, e)
