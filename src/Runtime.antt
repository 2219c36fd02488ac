-- ===== src/Runtime.antt =====
-- gate/src/runtime.rs: the policy that the controller publishes, `Runtime`. An operation takes the
-- times that it reads: the seconds of the system clock and the nanoseconds of the monotonic one.
pub mod Index
pub mod Lease
pub mod Policies
pub mod Modes
pub mod Examples
use xddp.Prelude.{
  ℕ, ◌+◌, ◌-◌, ◌*◌, ◌%◌, ◌^◌, min, List, [], ◌∷◌, Option, none, some, Bool, true, false, not, ◌&&◌,
  ◌||◌, ltb, leb, ◌==◌, if◌then◌else◌, length, take,
}
use xddp.Protocol.Utf8.{is_empty}
use xddp.Limiter.Address.{IpAddr, normalize}
use xddp.Limiter.Bucket.{Policy}
use xddp.Net.{IpNets}
use xddp.Runtime.Index.{PrefixIndex, new_index, index_contains}

abbrev pub max_document_bytes : ℕ
max_document_bytes = 262144

-- 15 seconds.
abbrev pub lease : ℕ
lease = 15000000000

pub record Wire (N : Type 0) : Type 0 where
  pub generation : ℕ
  pub expires_unix : ℕ
  pub mode : ℕ
  pub observe : Bool
  pub allow : List N
  pub block : List N

pub record Snapshot (N : Type 0) : Type 0 where
  pub wire : Wire N
  pub received : ℕ
  pub allow_index : PrefixIndex N
  pub block_index : PrefixIndex N

pub record Runtime (N : Type 0) : Type 0 where
  pub value : Option (Snapshot N)
  pub default_observe : Bool
  pub rejected : ℕ
  pub missing : ℕ

-- What opening and reading the file gives.
pub data Opened : Type 0 where
  not_found other_error read_error : Opened
  contents : List ℕ → Opened

abbrev pub count : ℕ → ℕ
count n = (n + 1) % 2 ^ 64

unfoldable pub new_runtime : {N : Type 0} → Bool → Runtime N
new_runtime default_observe = record {
  value = none;
  default_observe = default_observe;
  rejected = 0;
  missing = 0;
}

-- The lease is neither unrenewed nor expired.
abbrev pub leased : {N : Type 0} → Snapshot N → ℕ → ℕ → Bool
leased s unix now = leb (now - s.received) lease && ltb unix s.wire.expires_unix

abbrev pub live_generation : {N : Type 0} → Option (Snapshot N) → ℕ → ℕ → ℕ
live_generation none unix now = 0
live_generation (some s) unix now = if leased s unix now then s.wire.generation else 0

unfoldable pub telemetry : {N : Type 0} → Runtime N → ℕ → ℕ → ℕ × ℕ × ℕ
telemetry r unix now = (live_generation r.value unix now, r.rejected, r.missing)

unfoldable pub record_open_error : {N : Type 0} → Runtime N → Bool → Runtime N
record_open_error r is_not_found =
    if is_not_found
    then record r { missing = count r.missing }
    else record r { rejected = count r.rejected }

-- `parse` is `serde_json::from_slice`.
module _ (nets : IpNets) (parse : List ℕ → Option (Wire nets.IpNet)) where
  open nets use {IpNet}

  -- The document's own bounds, and its expiry against the clock.
  abbrev pub unfit : Wire IpNet → ℕ → Bool
  unfit w unix =
      ltb 3 w.mode
      || ltb (min (unix + 30) (2 ^ 64 - 1)) w.expires_unix
      || ltb 4096 (length w.allow)
      || ltb 4096 (length w.block)

  abbrev pub published : Runtime IpNet → Wire IpNet → ℕ → Runtime IpNet
  published r w now = record r {
    value = some (record {
      wire = w;
      received = now;
      allow_index = new_index nets w.allow;
      block_index = new_index nets w.block;
    });
  }

  -- The end of `apply`, by the previous snapshot: an older document is refused, and one of the
  -- same generation changes nothing.
  abbrev pub renewed :
      Runtime IpNet → Wire IpNet → ℕ → Option (Snapshot IpNet) → Bool × Runtime IpNet
  renewed r w now none = (true, published r w now)
  renewed r w now (some previous) =
      if ltb w.generation previous.wire.generation
      then (false, r)
      else if w.generation == previous.wire.generation
      then (true, r)
      else (true, published r w now)

  abbrev pub checked : Runtime IpNet → ℕ → ℕ → Option (Wire IpNet) → Bool × Runtime IpNet
  checked r unix now none = (false, r)
  checked r unix now (some w) = if unfit w unix then (false, r) else renewed r w now r.value

  unfoldable pub apply : Runtime IpNet → List ℕ → ℕ → ℕ → Bool × Runtime IpNet
  apply r bytes unix now =
      if ltb max_document_bytes (length bytes) then (false, r) else checked r unix now (parse bytes)

  -- The policy of a snapshot whose lease runs, and whether the address is blocked.
  abbrev pub enforced : Snapshot IpNet → IpAddr → Policy × Bool
  enforced s ip =
      let exempt = index_contains nets s.allow_index ip in
      (
        record { mode = s.wire.mode; observe = s.wire.observe; exempt = exempt },
        not s.wire.observe && not exempt && index_contains nets s.block_index ip,
      )

  abbrev pub policy_of : Bool → Option (Snapshot IpNet) → IpAddr → ℕ → ℕ → Policy × Bool
  policy_of default_observe none ip unix now =
      (record { mode = 0; observe = default_observe; exempt = false }, false)
  policy_of default_observe (some s) ip unix now =
      if ltb lease (now - s.received) || leb s.wire.expires_unix unix
      then (record { mode = 0; observe = true; exempt = false }, false)
      else enforced s (normalize ip)

  unfoldable pub policy : Runtime IpNet → IpAddr → ℕ → ℕ → Policy × Bool
  policy r ip unix now = policy_of r.default_observe r.value ip unix now

  abbrev pub accepted : Bool × Runtime IpNet → Runtime IpNet
  accepted (true, r) = r
  accepted (false, r) = record r { rejected = count r.rejected }

  -- A round of `watch`: at most one byte more than a document may have is read.
  unfoldable pub watch_round : Runtime IpNet → Opened → ℕ → ℕ → Runtime IpNet
  unfolding apply record_open_error
  watch_round r not_found unix now = record_open_error r true
  watch_round r other_error unix now = record_open_error r false
  watch_round r read_error unix now = record r { rejected = count r.rejected }
  watch_round r (contents bytes) unix now =
      accepted (apply r (take (max_document_bytes + 1) bytes) unix now)

  -- `watch`, for as many rounds as the list has: what the file was, and the times.
  unfoldable pub watch : Runtime IpNet → List ℕ → List (Opened × ℕ × ℕ) → Runtime IpNet
  unfolding watch_round
  watch r path [] = r
  watch r path ((file, unix, now) ∷ rounds) =
      if is_empty path then r else watch (watch_round r file unix now) path rounds
