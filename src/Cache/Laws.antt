-- ===== src/Cache/Laws.antt =====
-- What a client of the cache sees: `get` alone.
use capi_shell_mcp.Base.{
  ℕ, add_duration, ◌≤◌, leb, Eq, lookup-insert, lookup-delete, Option, none, some, if◌then◌else◌,
  ◌≡◌, arith, str_eq, ◌==◌, nat_eq,
}
use capi_shell_mcp.Cache.{TtlCache, get, set, remove}

module _ {ℓ κ} {K : Type ℓ} {V : Type κ} ⦃e : Eq K⦄ where
  -- The value that a read at the time `now` returns.
  abbrev pub read : K → ℕ → TtlCache K V → Option V
  read k now c = (get k now c).0

  -- After `set` at the time `t`, a read of the key at any time returns the value up to `ttl` after
  -- `t`, inclusive, and nothing later; a read of another key is as before.
  pub read-set :
      (k j : K) (v : V) (t now : ℕ) (c : TtlCache K V)
      → read j now (set k v t c) ≡ (
          if k == j
          then (if leb now (add_duration t c.ttl) then some v else none)
          else read j now c)
  unfolding get set
  read-set k j v t now c =
      ground
        (arith, lookup-insert k j (record { value = v; expires_at = add_duration t c.ttl }) c.store)

  -- The deletion of an expired entry shows in no later read: a read at `t`, whatever it finds,
  -- leaves what every read of every key at `t` or later returns.
  pub read-get :
      (k j : K) (t now : ℕ) (c : TtlCache K V) → t ≤ now → read j now (get k t c).1 ≡ read j now c
  unfolding get
  read-get k j t now c h = ground (arith, lookup-delete k j c.store, e.beq_iff k j)

  pub ttl-get : (k : K) (t : ℕ) (c : TtlCache K V) → (get k t c).1.ttl ≡ c.ttl
  unfolding get
  ttl-get k t c = ground arith

  -- After `remove` a read of the key returns nothing, and a read of another key is as before.
  pub read-remove :
      (k j : K) (now : ℕ) (c : TtlCache K V)
      → read j now (remove k c) ≡ (if k == j then none else read j now c)
  unfolding get remove
  read-remove k j now c = ground (arith, lookup-delete k j c.store)

  -- What is read at a time could have been read at every earlier time since it was set: between
  -- writes a key that has expired stays expired.
  pub read_expired_stays :
      (k : K) (t now : ℕ) (c : TtlCache K V) → t ≤ now → read k t c ≡ none → read k now c ≡ none
  unfolding get
  read_expired_stays k t now c h = ground arith
