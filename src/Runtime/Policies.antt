-- ===== src/Runtime/Policies.antt =====
-- gate/src/runtime.rs: what `policy` answers, from the documents that were applied.
use xddp.Prelude.{
  ℕ, ◌+◌, ◌-◌, ◌/◌, ◌^◌, ◌≤◌, ◌≡◌, refl, List, [], ◌∷◌, Option, none, some, Bool, true, false, ◌&&◌,
  ◌||◌, not, ltb, leb, ◌==◌, if◌then◌else◌, length, take, inl, inr, Bool-cases, arith,
}
use xddp.Protocol.Utf8.{is_empty}
use xddp.Limiter.Address.{IpAddr, v4, v6, IsAddress, normalize}
use xddp.Limiter.Bucket.{Policy}
use xddp.Net.{IpNets, Documented, in_any}
use xddp.Runtime.{
  max_document_bytes, lease, Wire, Snapshot, Runtime, Opened, not_found, other_error, read_error,
  contents, new_runtime, unfit, accepted, policy, policy_of, enforced, record_open_error,
  watch_round, watch,
}
use xddp.Runtime.Index.{new_index}
use xddp.Runtime.Index.Scan.{index_contains-new_index}
use xddp.Runtime.Lease.{Applied, kept, renewal, apply-Applied}

module _ (nets : IpNets) (parse : List ℕ → Option (Wire nets.IpNet)) where
  open nets use {IpNet}

  -- The document is within its bounds, and the indexes are those of its lists.
  abbrev pub IsSnapshot : Option (Snapshot IpNet) → Type 0
  IsSnapshot none = Unit {0}
  IsSnapshot (some s) =
      (s.wire.mode ≤ 3)
      × (length s.wire.allow ≤ 4096)
      × (length s.wire.block ≤ 4096)
      × (s.allow_index ≡ new_index nets s.wire.allow)
      × (s.block_index ≡ new_index nets s.wire.block)

  fit-bounds :
      (w : Wire IpNet) (unix : ℕ)
      → unfit nets parse w unix ≡ false
      → (w.mode ≤ 3) × (length w.allow ≤ 4096) × (length w.block ≤ 4096)
  fit-bounds w unix h = ground (arith, h)

  abbrev pub IsRuntime : Bool → Runtime IpNet → Type 0
  IsRuntime d r = (r.default_observe ≡ d) × IsSnapshot r.value

  accepted-IsRuntime :
      (d : Bool) (r : Runtime IpNet) (unix now : ℕ) (doc : Option (Wire IpNet))
      (x : Bool × Runtime IpNet)
      → IsRuntime d r
      → Applied nets parse r unix now doc x
      → IsRuntime d (accepted nets parse x)
  accepted-IsRuntime d r unix now doc _ h (kept true) = h
  accepted-IsRuntime d r unix now doc _ h (kept false) = h
  accepted-IsRuntime d r unix now doc _ (observing, h) (renewal w e fit newer) =
      let (mode_le, allow_le, block_le) = fit-bounds w unix fit in
      (observing, (mode_le, allow_le, block_le, refl, refl))

  watch_round-IsRuntime :
      (d : Bool) (r : Runtime IpNet) (file : Opened) (unix now : ℕ)
      → IsRuntime d r
      → IsRuntime d (watch_round nets parse r file unix now)
  unfolding watch_round record_open_error
  watch_round-IsRuntime d r not_found unix now h = h
  watch_round-IsRuntime d r other_error unix now h = h
  watch_round-IsRuntime d r read_error unix now h = h
  watch_round-IsRuntime d r (contents bytes) unix now h =
      accepted-IsRuntime d r unix now _ _ h
        (apply-Applied nets parse r (take (max_document_bytes + 1) bytes) unix now)

  pub new-IsRuntime : (d : Bool) → IsRuntime d (new_runtime d)
  unfolding new_runtime
  new-IsRuntime d = (refl, tt)

  -- Whatever `watch` reads in its rounds, the snapshot has a mode of at most 3, lists of at most 4096
  -- networks and the indexes of these lists, and the configured default does not change, when this
  -- held before.
  pub watch-IsRuntime :
      (d : Bool) (r : Runtime IpNet) (path : List ℕ) (rounds : List (Opened × ℕ × ℕ))
      → IsRuntime d r
      → IsRuntime d (watch nets parse r path rounds)
  unfolding watch
  watch-IsRuntime d r path [] h = h
  watch-IsRuntime d r path ((file, unix, now) ∷ rounds) h = elim (Bool-cases (is_empty path)) [
    | inl none_given ↦ rw none_given h
    | inr given ↦ rw given (
        watch-IsRuntime d (watch_round nets parse r file unix now) path rounds
          (watch_round-IsRuntime d r file unix now h))
  ]

  -- The policy by its documentation: a scan of the lists, with no index.
  abbrev pub scanned : Wire IpNet → IpAddr → Policy × Bool
  scanned w ip =
      let exempt = in_any nets w.allow ip in
      (
        record { mode = w.mode; observe = w.observe; exempt = exempt },
        not w.observe && not exempt && in_any nets w.block ip,
      )

  abbrev pub published_policy : Bool → Option (Snapshot IpNet) → IpAddr → ℕ → ℕ → Policy × Bool
  published_policy default_observe none ip unix now =
      (record { mode = 0; observe = default_observe; exempt = false }, false)
  published_policy default_observe (some s) ip unix now =
      if leb (now - s.received) lease && ltb unix s.wire.expires_unix
      then scanned s.wire (normalize ip)
      else (record { mode = 0; observe = true; exempt = false }, false)

  lapse-tests :
      (s : Snapshot IpNet) (unix now : ℕ)
      → (ltb lease (now - s.received) || leb s.wire.expires_unix unix)
        ≡ not (leb (now - s.received) lease && ltb unix s.wire.expires_unix)
  lapse-tests s unix now = ground arith

  normalize-IsAddress : (ip : IpAddr) → IsAddress ip → IsAddress (normalize ip)
  unfolding normalize
  normalize-IsAddress (v4 a) h = h
  normalize-IsAddress (v6 a) h = elim (Bool-cases (a / 2 ^ 32 == 0xffff)) [
    | inl mapped ↦ rw mapped (omega arith)
    | inr other ↦ rw other h
  ]

  module _ (law : Documented nets) where
    enforced-scanned :
        (s : Snapshot IpNet) (ip : IpAddr)
        → s.allow_index ≡ new_index nets s.wire.allow
        → s.block_index ≡ new_index nets s.wire.block
        → IsAddress ip
        → enforced nets parse s ip ≡ scanned s.wire ip
    enforced-scanned s ip allow block h = rw (
      allow,
      block,
      index_contains-new_index nets law ip h s.wire.allow,
      index_contains-new_index nets law ip h s.wire.block,
    )

    policy_of-published :
        (d : Bool) (previous : Option (Snapshot IpNet)) (ip : IpAddr) (unix now : ℕ)
        → IsSnapshot previous
        → IsAddress ip
        → policy_of nets parse d previous ip unix now ≡ published_policy d previous ip unix now
    policy_of-published d none ip unix now w h = refl
    policy_of-published d (some s) ip unix now (mode_le, allow_le, block_le, allow, block) h =
        elim (Bool-cases (leb (now - s.received) lease && ltb unix s.wire.expires_unix)) [
          | inl runs ↦
              rw (lapse-tests s unix now, runs)
                (enforced-scanned s (normalize ip) allow block (normalize-IsAddress ip h))
          | inr lapsed ↦ rw (lapse-tests s unix now, lapsed)
        ]

    -- The indexed policy implements the scanned one. After any rounds of `watch` on a new runtime,
    -- `policy` is for each address what a scan of the published lists gives: the default of the
    -- configuration before a first publication, the policy of the document with its lists scanned
    -- for the normalized address while its lease runs, and afterwards the observing policy of mode 0
    -- that blocks nothing.
    pub policy-published :
        (d : Bool) (path : List ℕ) (rounds : List (Opened × ℕ × ℕ)) (ip : IpAddr) (unix now : ℕ)
        → IsAddress ip
        → policy nets parse (watch nets parse (new_runtime d) path rounds) ip unix now
          ≡ published_policy d (watch nets parse (new_runtime d) path rounds).value ip unix now
    unfolding policy
    policy-published d path rounds ip unix now h =
        let (observing, w) = reached d path rounds in
        rw observing (policy_of-published d _ ip unix now w h)
      where
        reached :
            (d : Bool) (path : List ℕ) (rounds : List (Opened × ℕ × ℕ))
            → IsRuntime d (watch nets parse (new_runtime d) path rounds)
        reached d path rounds = watch-IsRuntime d (new_runtime d) path rounds (new-IsRuntime d)
