-- ===== src/Protocol/Varint/Encode.antt =====
-- gate/src/protocol.rs: what `put_varint` writes, in plain arithmetic.
use xddp.Prelude.{
  ℕ, zero, suc, ◌+◌, ◌/◌, ◌%◌, ◌^◌, ◌≤◌, ◌<◌, ◌≡◌, ◌∙◌, bit_and, bit_or, List, [], ◌∷◌, ◌++◌, true,
  false, ltb, length, All, lt_wf, arith,
}
use xddp.Prelude.Bits.{bit_and-127, byte_mark}
use xddp.Prelude.Int.{ℤ, pos, to_u32, to_u32-lt}
use xddp.Protocol.Base.{IsByte}
use xddp.Protocol.Varint.{put_loop, put_varint}
use mathlib.Core.List.{append_assoc}
use mathlib.Core.WellFounded.{Acc}

-- The seven-bit groups of `v`, lowest first, for `v` below 128 ^ (k + 1).
unfoldable pub groups : ℕ → ℕ → List ℕ
groups zero v = v ∷ []
groups (suc k) v = elim (ltb v 128) [ true ↦ v ∷ [] | false ↦ (v % 128 + 128) ∷ groups k (v / 128) ]

low_group : (v : ℕ) → bit_and v 127 % 256 ≡ v % 128
low_group v = omega (arith, bit_and-127 v)

marked_group : (v : ℕ) → bit_or (bit_and v 127 % 256) 128 ≡ v % 128 + 128
marked_group v =
    omega (arith, bit_and-127 v, byte_mark (bit_and v 127 % 256) (omega (arith, bit_and-127 v)))

pub put_loop-groups :
    (k : ℕ) (out : List ℕ) (v : ℕ) (w : Acc ◌<◌ v)
    → v < 128 ^ suc k
    → put_loop out v w ≡ out ++ groups k v
unfolding put_loop groups
put_loop-groups zero out v (Acc.intro _ smaller) h = ground (arith, low_group v)
put_loop-groups (suc k) out v (Acc.intro _ smaller) h = grind (
  arith,
  low_group v,
  marked_group v,
  λ (w : Acc ◌<◌ (v / 128)).
      put_loop-groups k (out ++ (v % 128 + 128) ∷ []) (v / 128) w (omega arith),
  append_assoc out ((v % 128 + 128) ∷ []) (groups k (v / 128)),
)

-- Five groups hold every 32-bit word.
pub put_varint-groups : (n : ℤ) (out : List ℕ) → put_varint n out ≡ out ++ groups 4 (to_u32 n)
unfolding put_varint
put_varint-groups n out =
    put_loop-groups 4 out (to_u32 n) (lt_wf.apply (to_u32 n)) (omega (arith, to_u32-lt n))

pub length-groups : (k v : ℕ) → (1 ≤ length (groups k v)) × (length (groups k v) ≤ k + 1)
unfolding groups
length-groups zero v = omega arith
length-groups (suc k) v = ground (arith, length-groups k (v / 128))

pub groups-IsByte : (k v : ℕ) → v < 128 ^ suc k → All IsByte (groups k v)
unfolding groups
groups-IsByte zero v h = omega arith
groups-IsByte (suc k) v h = ground (arith, groups-IsByte k (v / 128) (omega arith))

-- The number is appended to what is already there.
pub put_varint-append : (n : ℤ) (out : List ℕ) → put_varint n out ≡ out ++ put_varint n []
put_varint-append n out = rw (put_varint-groups n out, put_varint-groups n [])

pub length-put_varint : (n : ℤ) → (1 ≤ length (put_varint n [])) × (length (put_varint n []) ≤ 5)
length-put_varint n = rw put_varint-groups (length-groups 4 (to_u32 n))

-- A small number takes one byte.
pub put_varint_small : (n : ℕ) → n < 128 → put_varint (pos n) [] ≡ n ∷ []
unfolding groups
put_varint_small n h =
    let e : n % 2 ^ 32 ≡ n = omega arith in put_varint-groups (pos n) [] ∙ rw e (ground arith)

-- Three bytes hold 21 bits.
pub small_size : (n : ℕ) → n < 2 ^ 21 → length (put_varint (pos n) []) ≤ 3
unfolding groups
small_size n h =
    let e : n % 2 ^ 32 ≡ n = omega arith in rw (put_varint-groups (pos n) [], e) (ground arith)
