-- ===== src/Cache/History.antt =====
-- The cache against its history: what a read returns is settled by the operations so far.
use capi_shell_mcp.Base.{
  ℕ, ℤ, add_duration, ◌≤◌, leb, Eq, Option, none, some, if◌then◌else◌, [], ◌≡◌, refl, arith, ◌==◌,
  List, ◌∷◌, lookup, ◌∙◌,
}
use capi_shell_mcp.Cache.{TtlCache, new, get, set, remove, clear}
use capi_shell_mcp.Cache.Laws.{read, read-set, read-get, read-remove}

-- The operations of the clients, in the order in which the mutex lets them in; a read and a write
-- have the time that they take from the clock.
pub data Operation {ℓ κ} (K : Type ℓ) (V : Type κ) : Type (ℓ ⊔ κ) where
  do_get : K → ℕ → Operation K V
  do_set : K → V → ℕ → Operation K V
  do_remove : K → Operation K V
  do_clear : Operation K V

-- What a read at `now` shows of a write.
abbrev pub fresh {κ} : {V : Type κ} → ℤ → ℕ → Option (V × ℕ) → Option V
fresh ttl now none = none
fresh ttl now (some (v, t)) = if leb now (add_duration t ttl) then some v else none

module _ {ℓ κ} {K : Type ℓ} {V : Type κ} ⦃e : Eq K⦄ where
  unfoldable pub apply : Operation K V → TtlCache K V → TtlCache K V
  apply (do_get k t) c = (get k t c).1
  apply (do_set k v t) c = set k v t c
  apply (do_remove k) c = remove k c
  apply do_clear c = clear c

  -- A history has its last operation in front.
  unfoldable pub run : ℤ → List (Operation K V) → TtlCache K V
  run ttl [] = new ttl
  run ttl (o ∷ h) = apply o (run ttl h)

  -- The specification: the last write of the key that no removal follows, and its time.
  unfoldable pub last_write : K → List (Operation K V) → Option (V × ℕ)
  last_write k [] = none
  last_write k (do_get j t ∷ h) = last_write k h
  last_write k (do_set j v t ∷ h) =
      let older = last_write k h in if j == k then some (v, t) else older
  last_write k (do_remove j ∷ h) = let older = last_write k h in if j == k then none else older
  last_write k (do_clear ∷ h) = none

  -- No read of the history is later than `now`.
  abbrev pub ReadsBefore : ℕ → List (Operation K V) → Type 0
  ReadsBefore now [] = Unit
  ReadsBefore now (do_get k t ∷ h) = (t ≤ now) × ReadsBefore now h
  ReadsBefore now (do_set k v t ∷ h) = ReadsBefore now h
  ReadsBefore now (do_remove k ∷ h) = ReadsBefore now h
  ReadsBefore now (do_clear ∷ h) = ReadsBefore now h

  ttl-run : (ttl : ℤ) (h : List (Operation K V)) → (run ttl h).ttl ≡ ttl
  unfolding run apply get set remove clear new
  ttl-run ttl [] = refl
  ttl-run ttl (do_get k t ∷ h) = ground (arith, ttl-run ttl h)
  ttl-run ttl (do_set k v t ∷ h) = ttl-run ttl h
  ttl-run ttl (do_remove k ∷ h) = ttl-run ttl h
  ttl-run ttl (do_clear ∷ h) = ttl-run ttl h

  -- Whatever the clients did, a read that is not earlier than the reads before it returns what the
  -- history says: the value of the last write of its key if it was at most `ttl` ago and no
  -- removal followed it, and nothing otherwise.
  pub read-run :
      (ttl : ℤ) (now : ℕ) (k : K) (h : List (Operation K V))
      → ReadsBefore now h
      → read k now (run ttl h) ≡ fresh ttl now (last_write k h)
  unfolding run apply last_write
  read-run ttl now k [] b = unfold get new lookup in refl
  read-run ttl now k (do_get j t ∷ h) (before, b) =
      read-get j k t now (run ttl h) before ∙ read-run ttl now k h b
  read-run ttl now k (do_set j v t ∷ h) b =
      ground (arith, read-set j k v t now (run ttl h), read-run ttl now k h b, ttl-run ttl h)
  read-run ttl now k (do_remove j ∷ h) b =
      ground (arith, read-remove j k now (run ttl h), read-run ttl now k h b)
  read-run ttl now k (do_clear ∷ h) b = unfold get clear lookup in refl
