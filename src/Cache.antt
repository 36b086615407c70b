-- ===== src/Cache.antt =====
-- internal/cache/cache.go. A time is a number of nanoseconds, read from the clock at each call and
-- passed in as `now`.
pub mod Laws
pub mod History
mod Examples
use capi_shell_mcp.Base.{
  ℕ, ℤ, add_duration, ltb, Eq, Map, lookup, insert, delete, Option, none, some, if◌then◌else◌, [],
}

pub record Entry {ℓ} (V : Type ℓ) : Type ℓ where
  pub value : V
  pub expires_at : ℕ

pub record TtlCache {ℓ κ} (K : Type ℓ) (V : Type κ) : Type (ℓ ⊔ κ) where
  pub ttl : ℤ
  pub store : Map K (Entry V)

unfoldable pub new {ℓ κ} : {K : Type ℓ} {V : Type κ} → ℤ → TtlCache K V
new ttl = record { ttl = ttl; store = [] }

module _ {ℓ κ} {K : Type ℓ} {V : Type κ} ⦃e : Eq K⦄ where
  -- An expired entry is deleted when it is read.
  unfoldable pub get : K → ℕ → TtlCache K V → Option V × TtlCache K V
  get key now c = elim (lookup key c.store) [
    | none ↦ (none, c)
    | some e ↦
        if ltb e.expires_at now
        then (none, record c { store = delete key c.store })
        else (some e.value, c)
  ]

  unfoldable pub set : K → V → ℕ → TtlCache K V → TtlCache K V
  set key value now c = record c {
    store = insert key (record { value = value; expires_at = add_duration now c.ttl }) c.store;
  }

  unfoldable pub remove : K → TtlCache K V → TtlCache K V
  remove key c = record c { store = delete key c.store }

unfoldable pub clear {ℓ κ} : {K : Type ℓ} {V : Type κ} → TtlCache K V → TtlCache K V
clear c = record c { store = [] }
