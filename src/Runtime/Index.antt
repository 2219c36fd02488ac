-- ===== src/Runtime/Index.antt =====
-- gate/src/runtime.rs: `PrefixIndex`. A HashSet is the list of its elements, and a BTreeMap the list
-- of its entries in the order of their keys.
pub mod Scan
use xddp.Prelude.{
  ℕ, ◌-◌, ◌*◌, ◌%◌, ◌^◌, bit_and, List, [], ◌∷◌, map, Bool, true, false, ◌||◌, ltb, leb, ◌==◌,
  if◌then◌else◌, length,
}
use xddp.Protocol.Utf8.{any, is_empty}
use xddp.Limiter.Address.{IpAddr, v4, v6}
use xddp.Net.{Shape, v4_net, v6_net, IpNets, in_any}

abbrev pub has : ℕ → List ℕ → Bool
has v vs = any (λ x. x == v) vs

abbrev pub add_value : ℕ → List ℕ → List ℕ
add_value v vs = if has v vs then vs else v ∷ vs

-- `map.entry(bits).or_default().insert(v)`
unfoldable pub entry_insert : ℕ → ℕ → List (ℕ × List ℕ) → List (ℕ × List ℕ)
entry_insert bits v [] = (bits, v ∷ []) ∷ []
entry_insert bits v ((b, vs) ∷ m) =
    if bits == b
    then (b, add_value v vs) ∷ m
    else if ltb bits b
    then (bits, v ∷ []) ∷ (b, vs) ∷ m
    else (b, vs) ∷ entry_insert bits v m

-- `MAX.checked_shl(width - bits).unwrap_or(0)`
abbrev pub prefix_mask : ℕ → ℕ → ℕ
prefix_mask width bits =
    if leb width (width - bits) then 0 else (2 ^ width - 1) * 2 ^ (width - bits) % 2 ^ width

pub record PrefixIndex (N : Type 0) : Type 0 where
  pub small : List N
  pub v4 : List (ℕ × List ℕ)
  pub v6 : List (ℕ × List ℕ)

abbrev pub masked : ℕ → List (ℕ × List ℕ) → List (ℕ × List ℕ)
masked width m = map (λ e. (prefix_mask width e.0, e.1)) m

-- `iter().any(|(mask,nets)| nets.contains(&(raw & mask)))`
abbrev pub probe : ℕ → List (ℕ × List ℕ) → Bool
probe raw m = any (λ e. has (bit_and raw e.0) e.1) m

module _ (nets : IpNets) where
  open nets use {IpNet, shape, contains}

  abbrev pub insert_shape :
      Shape → List (ℕ × List ℕ) × List (ℕ × List ℕ) → List (ℕ × List ℕ) × List (ℕ × List ℕ)
  insert_shape (v4_net bits network) (m4, m6) = (entry_insert bits network m4, m6)
  insert_shape (v6_net bits network) (m4, m6) = (m4, entry_insert bits network m6)

  -- The loop over the networks.
  unfoldable pub group :
      List IpNet → List (ℕ × List ℕ) × List (ℕ × List ℕ) → List (ℕ × List ℕ) × List (ℕ × List ℕ)
  unfolding entry_insert
  group [] maps = maps
  group (n ∷ ns) maps = group ns (insert_shape (shape n) maps)

  unfoldable pub new_index : List IpNet → PrefixIndex IpNet
  unfolding group
  new_index ns =
      let (m4, m6) = group ns ([], []) in
      if leb (length ns) 8
      then record { small = ns; v4 = []; v6 = [] }
      else record { small = []; v4 = masked 32 m4; v6 = masked 128 m6 }

  abbrev pub probe_address : PrefixIndex IpNet → IpAddr → Bool
  probe_address x (v4 raw) = probe raw x.v4
  probe_address x (v6 raw) = probe raw x.v6

  unfoldable pub index_contains : PrefixIndex IpNet → IpAddr → Bool
  index_contains x ip = if is_empty x.small then probe_address x ip else in_any nets x.small ip
