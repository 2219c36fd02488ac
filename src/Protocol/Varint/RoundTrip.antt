-- ===== src/Protocol/Varint/RoundTrip.antt =====
-- gate/src/protocol.rs: `varint` reads back what `put_varint` writes.
use xddp.Prelude.{
  ℕ, zero, suc, ◌+◌, ◌*◌, ◌/◌, ◌%◌, ◌^◌, ◌≤◌, ◌<◌, ◌≡◌, refl, ap, List, [], ◌∷◌, ◌++◌, none, some,
  length, length-append, arith,
}
use xddp.Prelude.Bits.{byte_high, byte_more}
use xddp.Prelude.Int.{ℤ, to_i32, to_u32, to_u32-lt, to_i32-to_u32, IsI32}
use xddp.Protocol.Base.{ok}
use xddp.Protocol.Varint.{varint_loop, varint, put_varint}
use xddp.Protocol.Varint.Encode.{groups, put_varint-groups}
use xddp.Protocol.Varint.Decode.{shift_seven, round_value}

-- The lowest group of `v` and the others, both shifted to their places.
split_low : (v i : ℕ) → v * 2 ^ (7 * i) ≡ v % 128 * 2 ^ (7 * i) + v / 128 * 2 ^ (7 * (i + 1))
split_low v i =
    let e : v ≡ v / 128 * 128 + v % 128 = omega arith in
    omega (arith, ap (λ (t : ℕ). t * 2 ^ (7 * i)) e, ap (λ (t : ℕ). v / 128 * t) (shift_seven i))

-- The last byte of a number.
last_round :
    (k i value v : ℕ) (rest : List ℕ)
    → i + suc k ≡ 5
    → v < 128
    → (i ≡ 4 → v < 16)
    → value < 2 ^ (7 * i)
    → varint_loop (suc k) i value (v ∷ rest) ≡ ok (some (to_i32 (value + v * 2 ^ (7 * i)), i + 1))
unfolding varint_loop
last_round k i value v rest hk hv h4 hl =
    let low : v % 128 ≡ v = omega arith in
    ground
      (arith, byte_high v, byte_more v, round_value i value v, ap (λ (t : ℕ). t * 2 ^ (7 * i)) low)

-- A byte with its mark set.
inner_round :
    (k i value g : ℕ) (rest : List ℕ)
    → i + suc k ≡ 5
    → i ≤ 3
    → g < 128
    → value < 2 ^ (7 * i)
    → (varint_loop (suc k) i value ((g + 128) ∷ rest)
        ≡ varint_loop k (i + 1) (value + g * 2 ^ (7 * i)) rest)
      × (value + g * 2 ^ (7 * i) < 2 ^ (7 * (i + 1)))
unfolding varint_loop
inner_round k i value g rest hk hi hg hl =
    let low : (g + 128) % 128 ≡ g = omega arith in
    ground (
      arith,
      byte_more (g + 128),
      round_value i value (g + 128),
      ap (λ (t : ℕ). t * 2 ^ (7 * i)) low,
    )

-- From round `i` on, the loop adds up the groups that are left.
varint_loop-groups :
    (k i value v : ℕ) (rest : List ℕ)
    → i + suc k ≡ 5
    → v < 128 ^ suc k
    → v * 2 ^ (7 * i) < 2 ^ 32
    → value < 2 ^ (7 * i)
    → varint_loop (suc k) i value (groups k v ++ rest)
      ≡ ok (some (to_i32 (value + v * 2 ^ (7 * i)), i + length (groups k v)))
unfolding groups
varint_loop-groups zero i value v rest hk hv hm hl =
    let e : i ≡ 4 = omega arith in
    last_round 0 i value v rest hk hv (λ _. omega (arith, ap (λ (t : ℕ). v * 2 ^ (7 * t)) e)) hl
varint_loop-groups (suc k) i value v rest hk hv hm hl = ground (
  arith,
  last_round (suc k) i value v rest,
  inner_round (suc k) i value (v % 128) (groups k (v / 128) ++ rest),
  split_low v i,
  varint_loop-groups k (i + 1) (value + v % 128 * 2 ^ (7 * i)) (v / 128) rest,
)

-- `varint` reads back every i32 that `put_varint` writes, takes exactly its bytes, and leaves what
-- follows alone.
pub varint-put_varint :
    (n : ℤ) (rest : List ℕ)
    → IsI32 n
    → varint (put_varint n [] ++ rest) ≡ ok (some (n, length (put_varint n [])))
unfolding varint
varint-put_varint n rest h =
    rw put_varint-groups
      (ground (arith, to_u32-lt n, to_i32-to_u32 n h, varint_loop-groups 4 0 0 (to_u32 n) rest))

-- A number cut short is not read: `varint` asks for more on every proper prefix.
inner_prefix :
    (k i value v x : ℕ) (front back : List ℕ)
    → i + suc k ≡ 5
    → v < 128 ^ suc k
    → v * 2 ^ (7 * i) < 2 ^ 32
    → value < 2 ^ (7 * i)
    → groups k v ≡ front ++ x ∷ back
    → varint_loop (suc k) i value front ≡ ok none
unfolding groups
inner_prefix k i value v x [] back hk hv hm hl e = unfold varint_loop in refl
inner_prefix zero i value v x (y ∷ front) back hk hv hm hl e =
    absurd (omega (arith, ap length e, length-append front (x ∷ back)))
inner_prefix (suc k) i value v x (y ∷ front) back hk hv hm hl e = ground (
  arith,
  ap length e,
  length-append front (x ∷ back),
  inner_round (suc k) i value (v % 128) front,
  split_low v i,
  inner_prefix k (i + 1) (value + v % 128 * 2 ^ (7 * i)) (v / 128) x front back,
)

-- On every proper prefix of what `put_varint` writes, `varint` asks for more data.
pub varint_prefix :
    (n : ℤ) (x : ℕ) (front back : List ℕ)
    → put_varint n [] ≡ front ++ x ∷ back
    → varint front ≡ ok none
unfolding varint
varint_prefix n x front back e =
    inner_prefix 4 0 0 (to_u32 n) x front back (omega arith) (omega (arith, to_u32-lt n))
      (omega (arith, to_u32-lt n)) (omega arith) (rw put_varint-groups at e)
