-- ===== src/Limiter/Table.antt =====
-- gate/src/limiter.rs: `Table`, 64 shards of a hash map. The hash is a parameter of each table: it
-- is keyed at random. A shard's lock is held for the whole of each operation, so operations are
-- sequential steps.
pub mod Laws
use xddp.Prelude.{
  ℕ, ◌+◌, ◌/◌, ◌%◌, List, [], ◌∷◌, Option, none, some, Bool, true, false, ltb, ◌==◌, if◌then◌else◌,
  length,
}
use xddp.Limiter.Address.{IpAddr, ip_eq}

abbrev pub shards_count : ℕ
shards_count = 64

pub record Table (E : Type 0) : Type 0 where
  pub shards : ℕ → List (IpAddr × E)
  pub hash : IpAddr → ℕ
  pub capacity : ℕ

module _ {E : Type 0} where
  -- `map.get(&key)` and `map.insert(key, e)`.
  pub find : IpAddr → List (IpAddr × E) → Option E
  find k [] = none
  find k ((j, e) ∷ m) = if ip_eq j k then some e else find k m

  pub put : IpAddr → E → List (IpAddr × E) → List (IpAddr × E)
  put k e [] = (k, e) ∷ []
  put k e ((j, d) ∷ m) = if ip_eq j k then (j, e) ∷ m else (j, d) ∷ put k e m

  -- `map.retain(|_, e| keep(e))`
  pub retain : (E → Bool) → List (IpAddr × E) → List (IpAddr × E)
  retain keep [] = []
  retain keep ((j, e) ∷ m) = let rest = retain keep m in if keep e then (j, e) ∷ rest else rest

  abbrev pub shard : Table E → IpAddr → ℕ
  shard t k = t.hash k % shards_count

  unfoldable pub lookup : Table E → IpAddr → Option E
  unfolding find
  lookup t k = find k (t.shards (shard t k))

  -- The shard of `k`, with `k` at `e`.
  unfoldable pub insert : Table E → IpAddr → E → Table E
  unfolding put
  insert t k e = record t {
    shards = λ i. if i == shard t k then put k e (t.shards i) else t.shards i;
  }

  -- What is written through the reference that `get_mut` gives, if there is one.
  unfoldable pub write : Table E → IpAddr → E → Table E
  unfolding lookup insert
  write t k e = elim (lookup t k) [ none ↦ t | some _ ↦ insert t k e ]

  unfoldable pub sweep_shard : Table E → (E → Bool) → ℕ → Table E
  unfolding retain
  sweep_shard t keep i = record t {
    shards = λ j. if j == i then retain keep (t.shards j) else t.shards j;
  }

unfoldable pub new : (E : Type 0) → (IpAddr → ℕ) → ℕ → Table E
new E hash capacity = record { shards = λ i. []; hash = hash; capacity = capacity / shards_count }
