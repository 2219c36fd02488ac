-- ===== src/Limiter/Table/Laws.antt =====
-- gate/src/limiter.rs: a table as a finite map.
use xddp.Prelude.{
  ℕ, ◌+◌, ◌≤◌, ◌<◌, ◌≡◌, refl, ap, sym, ◌∙◌, List, [], ◌∷◌, Option, none, some, Bool, false, ◌==◌,
  if◌then◌else◌, inl, inr, Bool-cases, Option-cases, ==→eq, length, arith,
}
use xddp.Limiter.Address.{IpAddr, ip_eq, ip_eq_iff}
use xddp.Limiter.Table.{Table, find, put, retain, shard, lookup, insert, write, sweep_shard}

module _ {E : Type 0} where
  find-put :
      (k j : IpAddr) (e : E) (m : List (IpAddr × E))
      → find j (put k e m) ≡ (if ip_eq k j then some e else find j m)
  unfolding find put
  find-put k j e [] = refl
  find-put k j e ((i, d) ∷ m) =
      ground (arith, ip_eq_iff i k, ip_eq_iff i j, ip_eq_iff k j, find-put k j e m)

  length-put :
      (k : IpAddr) (e : E) (m : List (IpAddr × E))
      → length (put k e m) ≡ (elim (find k m) [ none ↦ length m + 1 | some _ ↦ length m ])
  unfolding find put
  length-put k e [] = omega arith
  length-put k e ((i, d) ∷ m) = elim (Bool-cases (ip_eq i k)) [
    | inl hit ↦ rw hit
    | inr miss ↦ rw miss (elim (Option-cases (find k m)) [
      | inl p ↦ rw p (ground (arith, length-put k e m, p))
      | inr (c, p) ↦ rw p (ground (arith, length-put k e m, p))
    ])
  ]

  -- No key stands twice in a shard.
  abbrev pub Unique : List (IpAddr × E) → Type 0
  Unique [] = Unit {0}
  Unique ((i, d) ∷ m) = (find i m ≡ none) × Unique m

  put_miss :
      (i k : IpAddr) (e : E) (m : List (IpAddr × E))
      → ip_eq i k ≡ false
      → find i m ≡ none
      → find i (put k e m) ≡ none
  put_miss i k e m h n = find-put k i e m ∙ (ground (arith, n, h, ip_eq_iff i k, ip_eq_iff k i))

  put-Unique : (k : IpAddr) (e : E) (m : List (IpAddr × E)) → Unique m → Unique (put k e m)
  unfolding find put
  put-Unique k e [] u = (refl, tt)
  put-Unique k e ((i, d) ∷ m) (h, u) = elim (Bool-cases (ip_eq i k)) [
    | inl hit ↦ rw hit (h, u)
    | inr miss ↦ rw miss (put_miss i k e m miss h, put-Unique k e m u)
  ]

  find-retain-none :
      (keep : E → Bool) (k : IpAddr) (m : List (IpAddr × E))
      → find k m ≡ none
      → find k (retain keep m) ≡ none
  unfolding find retain
  find-retain-none keep k [] h = refl
  find-retain-none keep k ((i, d) ∷ m) h = ground (arith, find-retain-none keep k m)

  retain-Unique : (keep : E → Bool) (m : List (IpAddr × E)) → Unique m → Unique (retain keep m)
  unfolding retain
  retain-Unique keep [] u = tt
  retain-Unique keep ((i, d) ∷ m) (h, u) = elim (Bool-cases (keep d)) [
    | inl kept ↦ rw kept (find-retain-none keep i m h, retain-Unique keep m u)
    | inr gone ↦ rw gone (retain-Unique keep m u)
  ]

  -- An entry is found after a sweep exactly if it was there and is kept.
  abbrev pub kept_only : (E → Bool) → Option E → Option E
  kept_only keep none = none
  kept_only keep (some c) = if keep c then some c else none

  find-retain :
      (keep : E → Bool) (k : IpAddr) (m : List (IpAddr × E))
      → Unique m
      → find k (retain keep m) ≡ kept_only keep (find k m)
  unfolding find retain
  find-retain keep k [] u = refl
  find-retain keep k ((i, d) ∷ m) (h, u) = elim (Bool-cases (ip_eq i k)) [
    | inl hit ↦
        let e : find k m ≡ none = rw ((ip_eq_iff i k).0 hit) at h in
        rw hit (ground (arith, hit, find-retain-none keep k m e))
    | inr miss ↦ rw miss (ground (arith, miss, find-retain keep k m u))
  ]

  length-retain-le : (keep : E → Bool) (m : List (IpAddr × E)) → length (retain keep m) ≤ length m
  unfolding retain
  length-retain-le keep [] = omega arith
  length-retain-le keep ((i, d) ∷ m) = ground (arith, length-retain-le keep m)

  other_key : (t : Table E) (k j : IpAddr) → shard t j == shard t k ≡ false → ip_eq k j ≡ false
  other_key t k j h = elim (Bool-cases (ip_eq k j)) [
    | inl hit ↦
        let e : shard t j ≡ shard t k = ap (shard t) (sym ((ip_eq_iff k j).0 hit)) in
        absurd (ground (arith, e, h))
    | inr miss ↦ miss
  ]

  -- The table as a map: a key that is written reads back, and no other key changes.
  pub lookup-insert :
      (t : Table E) (k j : IpAddr) (e : E)
      → lookup (insert t k e) j ≡ (if ip_eq k j then some e else lookup t j)
  unfolding lookup insert
  lookup-insert t k j e = elim (Bool-cases (shard t j == shard t k)) [
    | inl same ↦ rw same (find-put k j e (t.shards (shard t j)))
    | inr other ↦ rw (other, other_key t k j other)
  ]

  -- What keeps a table a map within its capacity.
  pub record IsTable (t : Table E) : Type 0 where
    pub unique : (i : ℕ) → Unique (t.shards i)
    pub within : (i : ℕ) → length (t.shards i) ≤ t.capacity

  pub lookup-sweep_shard :
      (t : Table E) (keep : E → Bool) (i : ℕ) (k : IpAddr)
      → IsTable t
      → lookup (sweep_shard t keep i) k
        ≡ (if shard t k == i then kept_only keep (lookup t k) else lookup t k)
  unfolding lookup sweep_shard
  lookup-sweep_shard t keep i k w = elim (Bool-cases (shard t k == i)) [
    | inl hit ↦ rw hit (find-retain keep k (t.shards (shard t k)) (w.unique (shard t k)))
    | inr miss ↦ rw miss
  ]

  pub sweep_shard-IsTable :
      (t : Table E) (keep : E → Bool) (i : ℕ) → IsTable t → IsTable (sweep_shard t keep i)
  unfolding sweep_shard
  sweep_shard-IsTable t keep i w = record {
    unique = λ j. elim (Bool-cases (j == i)) [
      | inl hit ↦ rw hit (retain-Unique keep (t.shards j) (w.unique j))
      | inr miss ↦ rw miss (w.unique j)
    ];
    within = λ j. elim (Bool-cases (j == i)) [
      | inl hit ↦ rw hit (omega (arith, length-retain-le keep (t.shards j), w.within j))
      | inr miss ↦ rw miss (w.within j)
    ];
  }

  -- A key may be inserted if it is there already or its shard has room.
  abbrev pub Fits : Table E → IpAddr → Type 0
  Fits t k = elim (lookup t k) [
    | none ↦ length (t.shards (shard t k)) < t.capacity
    | some _ ↦ Unit {0}
  ]

  Fits-within :
      (t : Table E) (k : IpAddr) (e : E) (j : ℕ)
      → j ≡ shard t k
      → IsTable t
      → Fits t k
      → length (put k e (t.shards j)) ≤ t.capacity
  unfolding lookup
  Fits-within t k e j hj w h = rw hj (elim (Option-cases (find k (t.shards (shard t k)))) [
    | inl p ↦ omega (arith, room p, rw p at (length-put k e (t.shards (shard t k))))
    | inr (c, p) ↦
        omega (arith, w.within (shard t k), rw p at (length-put k e (t.shards (shard t k))))
  ])
    where
      room : find k (t.shards (shard t k)) ≡ none → length (t.shards (shard t k)) < t.capacity
      room p = rw (p, Fits) at h

  pub insert-IsTable :
      (t : Table E) (k : IpAddr) (e : E) → IsTable t → Fits t k → IsTable (insert t k e)
  unfolding insert lookup
  insert-IsTable t k e w h = record {
    unique = λ j. elim (Bool-cases (j == shard t k)) [
      | inl hit ↦ rw hit (put-Unique k e (t.shards j) (w.unique j))
      | inr miss ↦ rw miss (w.unique j)
    ];
    within = λ j. elim (Bool-cases (j == shard t k)) [
      | inl hit ↦ rw hit (Fits-within t k e j (==→eq j (shard t k) hit) w h)
      | inr miss ↦ rw miss (w.within j)
    ];
  }

  pub lookup-write :
      (t : Table E) (k j : IpAddr) (e c : E)
      → lookup t k ≡ some c
      → lookup (write t k e) j ≡ (if ip_eq k j then some e else lookup t j)
  unfolding write
  lookup-write t k j e c h = rw (h, write) (lookup-insert t k j e)

  pub write-none : (t : Table E) (k : IpAddr) (e : E) → lookup t k ≡ none → write t k e ≡ t
  unfolding write
  write-none t k e h = rw (h, write)

  pub write-IsTable : (t : Table E) (k : IpAddr) (e : E) → IsTable t → IsTable (write t k e)
  unfolding write
  write-IsTable t k e w = elim (Option-cases (lookup t k)) [
    | inl p ↦ rw (p, write) w
    | inr (c, p) ↦ rw (p, write) (insert-IsTable t k e w (rw (p, Fits) tt))
  ]
