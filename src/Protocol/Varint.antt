-- ===== src/Protocol/Varint.antt =====
-- gate/src/protocol.rs: `varint`, `put_varint` and `frame`. A byte slice is a list of numbers.
pub mod Encode
pub mod Decode
pub mod RoundTrip
use xddp.Prelude.{
  ℕ, zero, suc, ◌+◌, ◌*◌, ◌/◌, ◌%◌, ◌^◌, ◌<◌, bit_and, bit_or, List, [], ◌∷◌, ◌++◌, Option, none,
  some, not, ◌&&◌, ◌==◌, if◌then◌else◌, length, lt_wf, arith,
}
use xddp.Prelude.Int.{ℤ, pos, to_i32, to_u32}
use xddp.Protocol.Base.{Result, ok, err, var_int}
use mathlib.Core.Logic.{dite}
use mathlib.Core.WellFounded.{Acc}
use native.Mathlib.Decide.{dec_lt}

-- `value |= ((b & 0x7f) as u32) << (7 * i)`
abbrev pub add_group : ℕ → ℕ → ℕ → ℕ
add_group value b i = bit_or value (bit_and b 0x7f * 2 ^ (7 * i) % 2 ^ 32)

-- The rounds left of `0..5`, the index `i`, `value`, and the data from index `i` on.
pub varint_loop : ℕ → ℕ → ℕ → List ℕ → Result (Option (ℤ × ℕ))
varint_loop zero i value rest = err var_int
varint_loop (suc k) i value [] = ok none
varint_loop (suc k) i value (b ∷ rest) =
    let value' = add_group value b i in
    let more = varint_loop k (i + 1) value' rest in
    if i == 4 && not (bit_and b 0xf0 == 0)
    then err var_int
    else if bit_and b 0x80 == 0
    then ok (some (to_i32 value', i + 1))
    else more

-- `none` where the data ends inside the number.
unfoldable pub varint : List ℕ → Result (Option (ℤ × ℕ))
unfolding varint_loop
varint data' = varint_loop 5 0 0 data'

pub shift_shrinks : (v : ℕ) → 0 < v / 128 → v / 128 < v
shift_shrinks v h = omega arith

-- The loop of `put_varint`: the low group is pushed, marked while more follows.
pub put_loop : List ℕ → (v : ℕ) → Acc ◌<◌ v → List ℕ
put_loop out v (Acc.intro _ smaller) =
    let b = bit_and v 127 % 256 in
    dite (dec_lt 0 (v / 128))
      (λ more. put_loop (out ++ bit_or b 128 ∷ []) (v / 128) (smaller _ (shift_shrinks v more)))
      (λ _. out ++ b ∷ [])

unfoldable pub put_varint : ℤ → List ℕ → List ℕ
unfolding put_loop lt_wf
put_varint value out = put_loop out (to_u32 value) (lt_wf.apply (to_u32 value))

-- The length is cast to i32.
unfoldable pub frame : List ℕ → List ℕ
frame body = put_varint (to_i32 (length body % 2 ^ 32)) [] ++ body
