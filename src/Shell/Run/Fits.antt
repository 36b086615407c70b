-- ===== src/Shell/Run/Fits.antt =====
-- Output that fits under the cap.
use capi_shell_mcp.Base.{
  ℕ, ◌+◌, ◌≤◌, ◌<◌, List, [], ◌∷◌, length, false, some, subst, ◌≡◌, refl, arith,
}
use capi_shell_mcp.Shell.{out_stream, err_stream}
use capi_shell_mcp.Shell.Run.{
  Part, load, store, finish, Copying, run_part, run_parts, new_copying, any_write_failed,
}
use capi_shell_mcp.Shell.Run.Whole.{bytes_on, parts_whole}

-- The bytes that all Writes count.
abbrev pub counted : List Part → ℕ
counted [] = 0
counted (load s ∷ ps) = counted ps
counted (store s p ∷ ps) = length p + counted ps
counted (finish s p ∷ ps) = counted ps

-- No Write has failed, and whatever has been read of the counter is at most `sum`.
record IsWithin (sum : ℕ) (c : Copying) : Type 0 where
  stdout_going : c.stdout.failed ≡ false
  stderr_going : c.stderr.failed ≡ false
  counter : c.written ≤ sum
  stdout_loaded : c.stdout.loaded ≤ sum
  stderr_loaded : c.stderr.loaded ≤ sum

module _ (max : ℕ) where
  part-IsWithin :
      (p : Part) (sum : ℕ) (c : Copying)
      → c.limit ≡ some max
      → sum + counted (p ∷ []) ≤ max
      → IsWithin sum c
      → IsWithin (sum + counted (p ∷ [])) (run_part p c) × ((run_part p c).limit ≡ some max)
  unfolding run_part
  part-IsWithin (load out_stream) sum c limited fits w = ground arith
  part-IsWithin (load err_stream) sum c limited fits w = ground arith
  part-IsWithin (store out_stream p) sum c limited fits w = ground arith
  part-IsWithin (store err_stream p) sum c limited fits w = ground arith
  part-IsWithin (finish out_stream p) sum c limited fits w = ground arith
  part-IsWithin (finish err_stream p) sum c limited fits w = ground arith

  counted-cons : (p : Part) (ps : List Part) → counted (p ∷ ps) ≡ counted (p ∷ []) + counted ps
  counted-cons (load s) ps = omega arith
  counted-cons (store s p) ps = omega arith
  counted-cons (finish s p) ps = omega arith

  parts-IsWithin :
      (ps : List Part) (sum : ℕ) (c : Copying)
      → c.limit ≡ some max
      → sum + counted ps ≤ max
      → IsWithin sum c
      → IsWithin (sum + counted ps) (run_parts ps c)
  unfolding run_parts
  parts-IsWithin [] sum c limited fits w = record {
    stdout_going = w.stdout_going;
    stderr_going = w.stderr_going;
    counter = omega (arith, w.counter);
    stdout_loaded = omega (arith, w.stdout_loaded);
    stderr_loaded = omega (arith, w.stderr_loaded);
  }
  parts-IsWithin (p ∷ ps) sum c limited fits w =
      let cons = counted-cons p ps in
      let (w1, limited1) = part-IsWithin p sum c limited (omega (arith, fits, cons)) w in
      let all =
        parts-IsWithin ps (sum + counted (p ∷ [])) (run_part p c) limited1
          (omega (arith, fits, cons)) w1 in
      subst (λ (n : ℕ). IsWithin n (run_parts (p ∷ ps) c)) (omega (arith, cons)) all

  new-IsWithin : 0 < max → IsWithin 0 (new_copying max) × ((new_copying max).limit ≡ some max)
  unfolding new_copying
  new-IsWithin some_cap = ground arith

  new_buffers : ((new_copying max).stdout.buf ≡ []) × ((new_copying max).stderr.buf ≡ [])
  unfolding new_copying
  new_buffers = (refl, refl)

  -- If all that a command writes fits under the cap, then, however the parts of the Writes interleave,
  -- no Write fails, and both streams are stored whole and in order.
  pub fitting_writes_stored :
      (ps : List Part)
      → 0 < max
      → counted ps ≤ max
      → (any_write_failed (run_parts ps (new_copying max)) ≡ false)
        × ((run_parts ps (new_copying max)).stdout.buf ≡ bytes_on out_stream ps)
        × ((run_parts ps (new_copying max)).stderr.buf ≡ bytes_on err_stream ps)
  unfolding new_copying
  fitting_writes_stored ps some_cap fits =
      let (new, limited) = new-IsWithin some_cap in
      let w = parts-IsWithin ps 0 (new_copying max) limited (omega (arith, fits)) new in
      let going : any_write_failed (run_parts ps (new_copying max)) ≡ false =
        ground (arith, w.stdout_going, w.stderr_going) in
      let (o, e) = parts_whole ps (new_copying max) going in (going, o, e)
