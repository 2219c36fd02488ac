-- ===== src/Cache/Sizes.antt =====
-- gate/src/cache.rs: `varint_size` and `wire_size`, and the frames of `status_frame`.
use xddp.Prelude.{
  ℕ, zero, suc, ◌+◌, ◌-◌, ◌/◌, ◌%◌, ◌^◌, ◌≤◌, ◌<◌, ◌≡◌, ap, ◌∙◌, List, [], ◌∷◌, ◌++◌, some, true,
  false, ltb, length, length-append, lt_wf, arith,
}
use xddp.Prelude.Int.{pos, to_i32}
use xddp.Protocol.Varint.{put_varint, frame}
use xddp.Protocol.Varint.Encode.{groups, put_varint-groups, length-groups}
use xddp.Cache.{size_loop, varint_size, wire_size}
use mathlib.Core.WellFounded.{Acc}

size_loop-groups :
    (k size n : ℕ) (w : Acc ◌<◌ n)
    → n < 128 ^ suc k
    → size_loop size n w + 1 ≡ size + length (groups k n)
unfolding size_loop groups
size_loop-groups zero size n (Acc.intro _ smaller) h = ground arith
size_loop-groups (suc k) size n (Acc.intro _ smaller) h =
    grind
      (arith, λ (w : Acc ◌<◌ (n / 128)). size_loop-groups k (size + 1) (n / 128) w (omega arith))

-- The loop counts the bytes of the number.
varint_size-groups : (n : ℕ) → n < 128 ^ 5 → varint_size n ≡ length (groups 4 n)
unfolding varint_size
varint_size-groups n h = omega (arith, size_loop-groups 4 1 n (lt_wf.apply n) h)

pub varint_size_bounds : (n : ℕ) → n < 128 ^ 5 → (1 ≤ varint_size n) × (varint_size n ≤ 5)
varint_size_bounds n h = omega (arith, varint_size-groups n h, length-groups 4 n)

groups_mono : (k m n : ℕ) → m ≤ n → length (groups k m) ≤ length (groups k n)
unfolding groups
groups_mono zero m n h = omega arith
groups_mono (suc k) m n h =
    ground (arith, groups_mono k (m / 128) (n / 128) (omega arith), length-groups k (n / 128))

varint_size_mono : (m n : ℕ) → m ≤ n → n < 128 ^ 5 → varint_size m ≤ varint_size n
varint_size_mono m n h k =
    omega (arith, varint_size-groups m (omega arith), varint_size-groups n k, groups_mono 4 m n h)

-- A length as an i32, appended to some bytes.
put_length :
    (n : ℕ) (out : List ℕ)
    → n < 2 ^ 31
    → length (put_varint (to_i32 (n % 2 ^ 32)) out) ≡ length out + varint_size n
put_length n out h =
    let word : n % 2 ^ 32 ≡ n = omega arith in
    let small : ltb n (2 ^ 31) ≡ true = ground arith in
    let sizes : length (put_varint (pos n) out) ≡ length out + length (groups 4 n) =
      ap length (put_varint-groups (pos n) out ∙ rw word) ∙ length-append out (groups 4 n) in
    rw (word, small) (sizes ∙ omega (arith, varint_size-groups n (omega arith)))

-- The bytes on the wire for so many bytes of JSON.
unfoldable pub total : ℕ → ℕ
total n = n + varint_size n + 1 + varint_size (n + varint_size n + 1)

pub total_mono : (m n : ℕ) → m ≤ n → n < 2 ^ 31 → total m ≤ total n
unfolding total
total_mono m n h k =
    let first = varint_size_mono m n h (omega arith) in
    let bound = varint_size_bounds n (omega arith) in
    let second =
      varint_size_mono (m + varint_size m + 1) (n + varint_size n + 1) (omega (arith, first))
        (omega (arith, bound)) in
    omega (arith, first, second)

pub wire_size-total : (n : ℕ) → n < 2 ^ 31 → wire_size n ≡ some (total n)
unfolding wire_size total
wire_size-total n h =
    let first = varint_size_bounds n (omega arith) in
    let second = varint_size_bounds (n + varint_size n + 1) (omega (arith, first)) in
    let fits₁ : ltb (2 ^ 64 - 1) (n + varint_size n) ≡ false = ground (arith, first) in
    let fits₂ : ltb (2 ^ 64 - 1) (n + varint_size n + 1) ≡ false = ground (arith, first) in
    let fits₃ : ltb (2 ^ 64 - 1) (n + varint_size n + 1 + varint_size (n + varint_size n + 1))
        ≡ false =
      ground (arith, first, second) in
    rw (fits₁, fits₂, fits₃)

-- A packet of id 0 with a string of `n` bytes, as a frame.
pub length-frame :
    (n : ℕ) (body : List ℕ)
    → n < 2 ^ 30
    → length body ≡ n
    → length (frame (put_varint (to_i32 (n % 2 ^ 32)) (0 ∷ []) ++ body)) ≡ total n
unfolding frame total
length-frame n body h l =
    let inner = put_varint (to_i32 (n % 2 ^ 32)) (0 ∷ []) ++ body in
    let bound = varint_size_bounds n (omega arith) in
    let inner_length : length inner ≡ n + varint_size n + 1 =
      length-append (put_varint (to_i32 (n % 2 ^ 32)) (0 ∷ [])) body
      ∙ omega (arith, put_length n (0 ∷ []) (omega arith), l) in
    length-append (put_varint (to_i32 (length inner % 2 ^ 32)) []) inner
    ∙ ap (λ (m : ℕ). length (put_varint (to_i32 (m % 2 ^ 32)) []) + m) inner_length
    ∙ omega (arith, put_length (n + varint_size n + 1) [] (omega (arith, bound)))
