-- ===== src/Runtime/Examples.antt =====
-- gate/src/runtime.rs on concrete data: instances of the theorems.
use xddp.Prelude.{
  ℕ, ◌%◌, ◌^◌, ◌≤◌, ◌≡◌, refl, List, [], ◌∷◌, Option, none, some, true, false, length, inr, arith,
}
use xddp.Prelude.Whole.{whole}
use xddp.Limiter.Address.{v4, normalize}
use xddp.Limiter.State.{new_limiter}
use xddp.Limiter.Accept.{accept}
use xddp.Limiter.Examples.{cfg, hash}
use xddp.Net.{Shape, v4_net, IpNets, inside, IsShape, Documented, in_any}
use xddp.Runtime.{
  Wire, Snapshot, Runtime, Opened, not_found, read_error, contents, new_runtime, apply, policy,
  watch_round, watch, record_open_error,
}
use xddp.Runtime.Index.{new_index, group, entry_insert, index_contains}
use xddp.Runtime.Index.Scan.{index_contains-new_index}
use xddp.Runtime.Lease.{generation, watch-generation, watch-lapses}
use xddp.Runtime.Policies.{IsRuntime, watch-IsRuntime, policy-published, published_policy}
use xddp.Runtime.Modes.{panics, accept-policy}

-- Addresses and one network of 24 bits.
pub data Place : Type 0 where
  host : ℕ → Place
  lan : Place

abbrev pub place_shape : Place → Shape
place_shape (host n) = v4_net 32 (n % 2 ^ 32)
place_shape lan = v4_net 24 0x0a000000

abbrev pub places : IpNets
places = record { IpNet = Place; shape = place_shape; contains = λ n ip. inside (place_shape n) ip }

place_fits : (n : Place) → IsShape (place_shape n)
place_fits (host a) = (omega arith, omega arith, omega arith)
place_fits lan = (omega arith, omega arith, omega arith)

places-Documented : Documented places
places-Documented = record { shape_fits = place_fits; contains_inside = λ n ip. refl }

-- Ten networks, more than are scanned.
abbrev listed : List Place
listed = host 1 ∷ host 2 ∷ host 3 ∷ host 4 ∷ host 5 ∷ host 6 ∷ host 7 ∷ host 8 ∷ host 9 ∷ lan ∷ []

-- A document of three bytes: its generation, its mode, and the seconds of its expiry.
abbrev pub parse : List ℕ → Option (Wire Place)
parse (g ∷ mode ∷ expiry ∷ []) = some (record {
  generation = g;
  expires_unix = expiry;
  mode = mode;
  observe = false;
  allow = listed;
  block = lan ∷ [];
})
parse bytes = none

abbrev path : List ℕ
path = 47 ∷ []

-- A publication, one with a mode out of range, a replay of the first, and no file.
abbrev rounds : List (Opened × ℕ × ℕ)
rounds =
    (contents (7 ∷ 2 ∷ 50 ∷ []), 30, 1000)
    ∷ (contents (8 ∷ 4 ∷ 50 ∷ []), 31, 2000)
    ∷ (contents (7 ∷ 2 ∷ 60 ∷ []), 32, 3000)
    ∷ (not_found, 33, 4000)
    ∷ []

index_contains-new_index_example :
    index_contains places (new_index places listed) (v4 0x0a000063)
    ≡ in_any places listed (v4 0x0a000063)
index_contains-new_index_example =
    index_contains-new_index places places-Documented (v4 0x0a000063) (omega arith) listed

watch-generation_example :
    generation (new_runtime {N = Place} true).value
    ≤ generation (watch places parse (new_runtime true) path rounds).value
watch-generation_example = watch-generation places parse (new_runtime true) path rounds

-- Of these rounds only the second is counted as rejected.
watched : (watch places parse (new_runtime true) path rounds).rejected ≡ 1
unfolding watch watch_round apply new_runtime new_index record_open_error
watched = refl

-- The first publication.
abbrev taken : Wire Place
taken = record {
  generation = 7;
  expires_unix = 50;
  mode = 2;
  observe = false;
  allow = listed;
  block = lan ∷ [];
}

abbrev snapshot : Snapshot Place
snapshot = record {
  wire = taken;
  received = 1000;
  allow_index = new_index places listed;
  block_index = new_index places (lan ∷ []);
}

abbrev running : Runtime Place
running = record { value = some snapshot; default_observe = true; rejected = 0; missing = 0 }

watch-IsRuntime_example : IsRuntime places parse true (watch places parse running path rounds)
watch-IsRuntime_example =
    watch-IsRuntime places parse true running path rounds
      (refl, (omega arith, omega arith, omega arith, refl, refl))

-- A replay of the publication, an older one, and a file that cannot be read; then its expiry.
watch-lapses_example :
    policy places parse
      (watch places parse running path (
        (contents (7 ∷ 2 ∷ 60 ∷ []), 32, 3000)
        ∷ (contents (6 ∷ 1 ∷ 60 ∷ []), 33, 4000)
        ∷ (read_error, 34, 5000)
        ∷ []))
      (v4 1)
      50
      6000
    ≡ (record { mode = 0; observe = true; exempt = false }, false)
watch-lapses_example =
    watch-lapses places parse running snapshot path
      ((contents (7 ∷ 2 ∷ 60 ∷ []), 32, 3000)
        ∷ (contents (6 ∷ 1 ∷ 60 ∷ []), 33, 4000)
        ∷ (read_error, 34, 5000)
        ∷ [])
      (v4 1) 50 6000 refl (refl, (refl, (refl, tt))) (inr (omega arith))

policy-published_example :
    policy places parse (watch places parse (new_runtime true) path rounds) (v4 0x0a000063) 40 5000
    ≡ published_policy places parse true
        (watch places parse (new_runtime true) path rounds).value
        (v4 0x0a000063)
        40
        5000
policy-published_example =
    policy-published places parse places-Documented true path rounds (v4 0x0a000063) 40 5000
      (omega arith)

-- A network of the list is exempt under this policy, by the index.
exempted :
    policy places parse (watch places parse (new_runtime true) path rounds) (v4 0x0a000063) 40 5000
    ≡ (record { mode = 2; observe = false; exempt = true }, false)
unfolding policy watch watch_round apply new_runtime new_index group entry_insert index_contains
    normalize record_open_error
exempted = refl

four_multipliers : length (new_limiter whole cfg hash hash (λ i. 0) 0).cfg.mode_multipliers ≡ 4
unfolding new_limiter
four_multipliers = refl

accept-policy_example :
    panics
      (accept whole
        (new_limiter whole cfg hash hash (λ i. 0) 0)
        (v4 0x0a000063)
        (policy places parse
          (watch places parse (new_runtime true) path rounds)
          (v4 0x0a000063)
          40
          5000).0
        5000).0
    ≡ false
accept-policy_example =
    accept-policy places parse whole true path rounds (new_limiter whole cfg hash hash (λ i. 0) 0)
      (v4 0x0a000063) 40 5000 four_multipliers
