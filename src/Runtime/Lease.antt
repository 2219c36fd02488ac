-- ===== src/Runtime/Lease.antt =====
-- gate/src/runtime.rs: generations and leases over the rounds of `watch`.
use xddp.Prelude.{
  ℕ, ◌+◌, ◌-◌, ◌≤◌, ◌<◌, ◌≡◌, refl, List, [], ◌∷◌, Option, none, some, Bool, true, false, ◌||◌, ltb,
  leb, ◌==◌, length, take, All, ◌⊎◌, inl, inr, Bool-cases, arith,
}
use xddp.Protocol.Utf8.{is_empty}
use xddp.Limiter.Address.{IpAddr}
use xddp.Net.{IpNets}
use xddp.Runtime.{
  max_document_bytes, lease, Wire, Snapshot, Runtime, Opened, not_found, other_error, read_error,
  contents, apply, checked, renewed, unfit, published, accepted, policy, policy_of,
  record_open_error, watch_round, watch,
}

-- The generation of what was published last, whether or not its lease runs.
abbrev pub generation : {N : Type 0} → Option (Snapshot N) → ℕ
generation none = 0
generation (some s) = s.wire.generation

module _ (nets : IpNets) (parse : List ℕ → Option (Wire nets.IpNet)) where
  open nets use {IpNet}

  -- A document that is not newer than the generation, or is no document.
  abbrev pub is_stale : ℕ → Option (Wire IpNet) → Bool
  is_stale g none = true
  is_stale g (some w) = leb w.generation g

  abbrev pub stale_file : ℕ → Opened → Bool
  stale_file g not_found = true
  stale_file g other_error = true
  stale_file g read_error = true
  stale_file g (contents bytes) = is_stale g (parse (take (max_document_bytes + 1) bytes))

  -- What a snapshot lets in: the first, or a newer generation.
  abbrev pub Newer : Option (Snapshot IpNet) → Wire IpNet → Type 0
  Newer none w = Unit {0}
  Newer (some s) w = s.wire.generation < w.generation

  -- `apply` changes nothing, or publishes the document, which is fit and newer.
  pub data Applied (r : Runtime IpNet) (unix now : ℕ) (doc : Option (Wire IpNet))
      : Bool × Runtime IpNet → Type 0 where
    kept : (b : Bool) → Applied r unix now doc (b, r)
    renewal :
        (w : Wire IpNet)
        → doc ≡ some w
        → unfit nets parse w unix ≡ false
        → Newer r.value w
        → Applied r unix now doc (true, published nets parse r w now)

  renewed-Applied :
      (r : Runtime IpNet) (w : Wire IpNet) (unix now : ℕ) (previous : Option (Snapshot IpNet))
      → r.value ≡ previous
      → unfit nets parse w unix ≡ false
      → Applied r unix now (some w) (renewed nets parse r w now previous)
  renewed-Applied r w unix now none e fit = renewal w refl fit (rw e tt)
  renewed-Applied r w unix now (some s) e fit =
      elim (Bool-cases (ltb w.generation s.wire.generation)) [
        | inl older ↦ rw older (kept false)
        | inr not_older ↦ elim (Bool-cases (w.generation == s.wire.generation)) [
          | inl same ↦ rw (not_older, same) (kept true)
          | inr differs ↦
              rw (not_older, differs)
                (renewal w refl fit (rw e (ground (arith, not_older, differs))))
        ]
      ]

  checked-Applied :
      (r : Runtime IpNet) (unix now : ℕ) (doc : Option (Wire IpNet))
      → Applied r unix now doc (checked nets parse r unix now doc)
  checked-Applied r unix now none = kept false
  checked-Applied r unix now (some w) = elim (Bool-cases (unfit nets parse w unix)) [
    | inl bad ↦ rw bad (kept false)
    | inr fit ↦ rw fit (renewed-Applied r w unix now r.value refl fit)
  ]

  pub apply-Applied :
      (r : Runtime IpNet) (bytes : List ℕ) (unix now : ℕ)
      → Applied r unix now (parse bytes) (apply nets parse r bytes unix now)
  unfolding apply
  apply-Applied r bytes unix now = elim (Bool-cases (ltb max_document_bytes (length bytes))) [
    | inl long ↦ rw long (kept false)
    | inr short ↦ rw short (checked-Applied r unix now (parse bytes))
  ]

  Newer-generation :
      (previous : Option (Snapshot IpNet)) (w : Wire IpNet)
      → Newer previous w
      → generation previous ≤ w.generation
  Newer-generation none w h = omega arith
  Newer-generation (some s) w h = omega (arith, h)

  accepted-generation :
      (r : Runtime IpNet) (unix now : ℕ) (doc : Option (Wire IpNet)) (x : Bool × Runtime IpNet)
      → Applied r unix now doc x
      → generation r.value ≤ generation (accepted nets parse x).value
  accepted-generation r unix now doc _ (kept true) = omega arith
  accepted-generation r unix now doc _ (kept false) = omega arith
  accepted-generation r unix now doc _ (renewal w e fit newer) = Newer-generation r.value w newer

  watch_round-generation :
      (r : Runtime IpNet) (file : Opened) (unix now : ℕ)
      → generation r.value ≤ generation (watch_round nets parse r file unix now).value
  unfolding watch_round record_open_error
  watch_round-generation r not_found unix now = omega arith
  watch_round-generation r other_error unix now = omega arith
  watch_round-generation r read_error unix now = omega arith
  watch_round-generation r (contents bytes) unix now =
      accepted-generation r unix now _ _
        (apply-Applied r (take (max_document_bytes + 1) bytes) unix now)

  -- Whatever the file holds in the rounds of `watch`, the generation of what was published last is
  -- afterwards no lower than before.
  pub watch-generation :
      (r : Runtime IpNet) (path : List ℕ) (rounds : List (Opened × ℕ × ℕ))
      → generation r.value ≤ generation (watch nets parse r path rounds).value
  unfolding watch
  watch-generation r path [] = omega arith
  watch-generation r path ((file, unix, now) ∷ rounds) = elim (Bool-cases (is_empty path)) [
    | inl none_given ↦ rw none_given (omega arith)
    | inr given ↦ rw given (
        omega (
          arith,
          watch_round-generation r file unix now,
          watch-generation (watch_round nets parse r file unix now) path rounds,
        ))
  ]

  -- No document that is stale for the snapshot is a newer one.
  stale-Newer :
      (s : Snapshot IpNet) (w : Wire IpNet) (previous : Option (Snapshot IpNet))
      (doc : Option (Wire IpNet))
      → previous ≡ some s
      → doc ≡ some w
      → is_stale s.wire.generation doc ≡ true
      → ¬ (Newer previous w)
  stale-Newer s w previous doc p d stale newer =
      let stale' : leb w.generation s.wire.generation ≡ true = rw d at stale in
      let newer' : s.wire.generation < w.generation = rw p at newer in
      ground (arith, stale', newer')

  accepted-stale :
      (r : Runtime IpNet) (s : Snapshot IpNet) (unix now : ℕ) (doc : Option (Wire IpNet))
      (x : Bool × Runtime IpNet)
      → r.value ≡ some s
      → is_stale s.wire.generation doc ≡ true
      → Applied r unix now doc x
      → (accepted nets parse x).value ≡ some s
  accepted-stale r s unix now doc _ e stale (kept true) = e
  accepted-stale r s unix now doc _ e stale (kept false) = e
  accepted-stale r s unix now doc _ e stale (renewal w d fit newer) =
      absurd (stale-Newer s w r.value doc e d stale newer)

  watch_round-stale :
      (r : Runtime IpNet) (s : Snapshot IpNet) (file : Opened) (unix now : ℕ)
      → r.value ≡ some s
      → stale_file s.wire.generation file ≡ true
      → (watch_round nets parse r file unix now).value ≡ some s
  unfolding watch_round record_open_error
  watch_round-stale r s not_found unix now e stale = e
  watch_round-stale r s other_error unix now e stale = e
  watch_round-stale r s read_error unix now e stale = e
  watch_round-stale r s (contents bytes) unix now e stale =
      accepted-stale r s unix now _ _ e stale
        (apply-Applied r (take (max_document_bytes + 1) bytes) unix now)

  watch-stale :
      (r : Runtime IpNet) (s : Snapshot IpNet) (path : List ℕ) (rounds : List (Opened × ℕ × ℕ))
      → r.value ≡ some s
      → All (λ round. stale_file s.wire.generation round.0 ≡ true) rounds
      → (watch nets parse r path rounds).value ≡ some s
  unfolding watch
  watch-stale r s path [] e stale = e
  watch-stale r s path ((file, unix, now) ∷ rounds) e (first, others) =
      elim (Bool-cases (is_empty path)) [
        | inl none_given ↦ rw none_given e
        | inr given ↦ rw given (
            watch-stale (watch_round nets parse r file unix now) s path rounds
              (watch_round-stale r s file unix now e first) others)
      ]

  policy_of-lapsed :
      (default_observe : Bool) (s : Snapshot IpNet) (ip : IpAddr) (unix now : ℕ)
      → (lease < now - s.received) ⊎ (s.wire.expires_unix ≤ unix)
      → policy_of nets parse default_observe (some s) ip unix now
        ≡ (record { mode = 0; observe = true; exempt = false }, false)
  policy_of-lapsed default_observe s ip unix now h = rw (test h)
    where
      test :
          (lease < now - s.received) ⊎ (s.wire.expires_unix ≤ unix)
          → (ltb lease (now - s.received) || leb s.wire.expires_unix unix) ≡ true
      test h = ground (arith, h)

  -- A controller that publishes nothing newer loses the gate. When the file has been missing,
  -- unreadable, no document, or of the generation of the published snapshot or of an older one in
  -- every round of `watch`, then more than fifteen seconds after that snapshot was received, or from
  -- the second of its expiry on, `policy` is for each address that of the controller's absence:
  -- mode 0, observing, neither exempt nor blocked.
  pub watch-lapses :
      (r : Runtime IpNet) (s : Snapshot IpNet) (path : List ℕ) (rounds : List (Opened × ℕ × ℕ))
      (ip : IpAddr) (unix now : ℕ)
      → r.value ≡ some s
      → All (λ round. stale_file s.wire.generation round.0 ≡ true) rounds
      → (lease < now - s.received) ⊎ (s.wire.expires_unix ≤ unix)
      → policy nets parse (watch nets parse r path rounds) ip unix now
        ≡ (record { mode = 0; observe = true; exempt = false }, false)
  unfolding policy
  watch-lapses r s path rounds ip unix now e stale h =
      let kept' = watch-stale r s path rounds e stale in
      rw kept' (policy_of-lapsed (watch nets parse r path rounds).default_observe s ip unix now h)
