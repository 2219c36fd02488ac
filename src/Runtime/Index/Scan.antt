-- ===== src/Runtime/Index/Scan.antt =====
-- gate/src/runtime.rs: the index and a scan of the networks.
use xddp.Prelude.{
  ℕ, ◌-◌, ◌*◌, ◌/◌, ◌^◌, ◌≤◌, ◌<◌, ◌≡◌, refl, ap, sym, ◌∙◌, bit_and, List, [], ◌∷◌, Bool, true,
  false, ◌||◌, leb, ◌==◌, if◌then◌else◌, length, inl, inr, Bool-cases, arith,
}
use native.Mathlib.Nat.{one-le-pow}
use xddp.Prelude.Masks.{high_bits, shifted_ones, scaled}
use xddp.Protocol.Utf8.{is_empty}
use xddp.Limiter.Address.{IsAddress, IpAddr, v4, v6}
use xddp.Net.{Shape, v4_net, v6_net, IpNets, inside, agrees, IsNetwork, IsShape, Documented, in_any}
use xddp.Runtime.Index.{
  has, add_value, entry_insert, prefix_mask, masked, probe, insert_shape, group, new_index,
  probe_address, index_contains,
}

has-add_value : (a v : ℕ) (vs : List ℕ) → has a (add_value v vs) ≡ (v == a || has a vs)
has-add_value a v vs = ground arith

-- Whether a map holds, at some key, the value that `f` gives for the key.
hits : (ℕ → ℕ) → List (ℕ × List ℕ) → Bool
hits f [] = false
hits f ((b, vs) ∷ m) = has (f b) vs || hits f m

hits-entry_insert :
    (f : ℕ → ℕ) (bits v : ℕ) (m : List (ℕ × List ℕ))
    → hits f (entry_insert bits v m) ≡ (v == f bits || hits f m)
unfolding hits entry_insert
hits-entry_insert f bits v [] = ground arith
hits-entry_insert f bits v ((b, vs) ∷ m) =
    ground (arith, has-add_value (f b) v vs, hits-entry_insert f bits v m)

probe-masked :
    (width raw : ℕ) (m : List (ℕ × List ℕ))
    → probe raw (masked width m) ≡ hits (λ bits. bit_and raw (prefix_mask width bits)) m
unfolding hits
probe-masked width raw [] = refl
probe-masked width raw ((b, vs) ∷ m) =
    ap (λ t. has (bit_and raw (prefix_mask width b)) vs || t) (probe-masked width raw m)

-- The mask of a prefix, and what it keeps of an address.
mask-high :
    (width bits : ℕ) → bits ≤ width → prefix_mask width bits ≡ 2 ^ width - 2 ^ (width - bits)
mask-high width bits h = elim (Bool-cases (leb width (width - bits))) [
  | inl all_bits ↦ let s : width - bits ≡ width = ground (arith, all_bits) in rw s (ground arith)
  | inr some_bits ↦ rw some_bits (shifted_ones width (width - bits) (omega arith))
]

-- The test of a masked address is the test of the prefix.
mask-agrees :
    (width bits network a : ℕ)
    → IsNetwork width bits network
    → a < 2 ^ width
    → (network == bit_and a (prefix_mask width bits)) ≡ agrees width bits network a
mask-agrees width bits network a (fits, small, cleared) k =
    let s : ℕ = width - bits in
    let kept : bit_and a (prefix_mask width bits) ≡ a / 2 ^ s * 2 ^ s =
      ap (bit_and a) (mask-high width bits fits) ∙ high_bits s width a (omega arith) k in
    rw kept (
      ap (λ (n : ℕ). n == a / 2 ^ s * 2 ^ s) (sym cleared)
      ∙ scaled (a / 2 ^ s) (network / 2 ^ s) (2 ^ s) (one-le-pow s 2 (omega arith)))

-- The key's value in a map, for an address of 32 bits and of 128.
abbrev in_maps : List (ℕ × List ℕ) × List (ℕ × List ℕ) → IpAddr → Bool
in_maps (m4, m6) (v4 a) = hits (λ bits. bit_and a (prefix_mask 32 bits)) m4
in_maps (m4, m6) (v6 a) = hits (λ bits. bit_and a (prefix_mask 128 bits)) m6

in_maps-insert_shape :
    (nets : IpNets) (n : Shape) (maps : List (ℕ × List ℕ) × List (ℕ × List ℕ)) (ip : IpAddr)
    → IsShape n
    → IsAddress ip
    → in_maps (insert_shape nets n maps) ip ≡ (inside n ip || in_maps maps ip)
in_maps-insert_shape nets (v4_net bits network) (m4, m6) (v4 a) w h =
    hits-entry_insert _ bits network m4
    ∙ ap (λ t. t || in_maps (m4, m6) (v4 a)) (mask-agrees 32 bits network a w h)
in_maps-insert_shape nets (v4_net bits network) (m4, m6) (v6 a) w h = refl
in_maps-insert_shape nets (v6_net bits network) (m4, m6) (v4 a) w h = refl
in_maps-insert_shape nets (v6_net bits network) (m4, m6) (v6 a) w h =
    hits-entry_insert _ bits network m6
    ∙ ap (λ t. t || in_maps (m4, m6) (v6 a)) (mask-agrees 128 bits network a w h)

masked_probe :
    (nets : IpNets) (maps : List (ℕ × List ℕ) × List (ℕ × List ℕ)) (ip : IpAddr)
    → probe_address nets (record { small = []; v4 = masked 32 maps.0; v6 = masked 128 maps.1 }) ip
      ≡ in_maps maps ip
masked_probe nets (m4, m6) (v4 a) = probe-masked 32 a m4
masked_probe nets (m4, m6) (v6 a) = probe-masked 128 a m6

or_middle : (a b c : Bool) → (a || (b || c)) ≡ ((b || a) || c)
or_middle true b c = ground arith
or_middle false true c = refl
or_middle false false c = refl

module _ (nets : IpNets) (law : Documented nets) (ip : IpAddr) (h : IsAddress ip) where
  open nets use {IpNet, shape}

  in_maps-group :
      (ns : List IpNet) (maps : List (ℕ × List ℕ) × List (ℕ × List ℕ))
      → in_maps (group nets ns maps) ip ≡ (in_any nets ns ip || in_maps maps ip)
  unfolding group
  in_maps-group [] maps = refl
  in_maps-group (n ∷ ns) maps =
      in_maps-group ns (insert_shape nets (shape n) maps)
      ∙ ap (λ t. in_any nets ns ip || t)
          (in_maps-insert_shape nets (shape n) maps ip (law.shape_fits n) h)
      ∙ or_middle (in_any nets ns ip) (inside (shape n) ip) (in_maps maps ip)
      ∙ ap (λ t. (t || in_any nets ns ip) || in_maps maps ip) (sym (law.contains_inside n ip))

  small_scan :
      (ns : List IpNet)
      → (if is_empty ns
          then probe_address nets (record { small = ns; v4 = []; v6 = [] }) ip
          else in_any nets ns ip)
        ≡ in_any nets ns ip
  small_scan [] = nothing ip
    where
      nothing :
          (a : IpAddr) → probe_address nets (record { small = []; v4 = []; v6 = [] }) a ≡ false
      nothing (v4 a) = refl
      nothing (v6 a) = refl
  small_scan (n ∷ ns) = refl

  -- A lookup in the index that is built of networks answers as the scan of the networks does, for
  -- few networks as for many, of both families and of any prefix lengths.
  pub index_contains-new_index :
      (ns : List IpNet) → index_contains nets (new_index nets ns) ip ≡ in_any nets ns ip
  unfolding index_contains new_index hits
  index_contains-new_index ns = elim (Bool-cases (leb (length ns) 8)) [
    | inl few ↦ rw few (small_scan ns)
    | inr many ↦
        rw many
          (masked_probe nets (group nets ns ([], [])) ip ∙ in_maps-group ns ([], []) ∙ no_more ip)
  ]
    where
      no_more : (a : IpAddr) → (in_any nets ns ip || in_maps ([], []) a) ≡ in_any nets ns ip
      no_more (v4 a) = ground arith
      no_more (v6 a) = ground arith
