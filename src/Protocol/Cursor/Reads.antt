-- ===== src/Protocol/Cursor/Reads.antt =====
-- gate/src/protocol.rs: what the methods of `Cursor` read from well-formed data.
use xddp.Prelude.{
  ℕ, zero, suc, ◌+◌, ◌≤◌, ◌<◌, ◌^◌, ◌≡◌, refl, ap, sym, subst, ◌∙◌, Bool, true, false, List, [],
  ◌∷◌, ◌++◌, some, length, length-append, length-drop, drop, take-append_left, drop-append_left,
  arith,
}
use xddp.Prelude.Int.{ℤ, pos, IsI32}
use xddp.Protocol.Base.{Error, ok, err}
use xddp.Protocol.Varint.{put_varint}
use xddp.Protocol.Varint.RoundTrip.{varint-put_varint}
use xddp.Protocol.Utf8.{from_utf8}
use xddp.Protocol.Cursor.{
  Cursor, Parser, new, ◌>>=◌, ◌>>◌, return, reject_if, int, bytes, blob, string, finish,
}

-- The cursor stands in front of `rest`.
pub record At (c : Cursor) (rest : List ℕ) : Type 0 where
  pub ahead : drop c.pos_of c.bytes_of ≡ rest
  pub inside : c.pos_of ≤ length c.bytes_of

drop-nil : (A : Type 0) (n : ℕ) → drop {A = A} n [] ≡ []
drop-nil A zero = refl
drop-nil A (suc n) = refl

drop-add : {A : Type 0} (m n : ℕ) (xs : List A) → drop (m + n) xs ≡ drop n (drop m xs)
drop-add zero n xs = ap (λ (t : ℕ). drop t xs) (omega arith)
drop-add {A} (suc m) n [] = drop-nil A (suc m + n) ∙ sym (drop-nil A n)
drop-add (suc m) n (x ∷ xs) =
    let e : suc m + n ≡ suc (m + n) = omega arith in
    ap (λ (t : ℕ). drop t (x ∷ xs)) e ∙ drop-add m n xs

abbrev skip : Cursor → ℕ → Cursor
skip c n = record c { pos_of = c.pos_of + n }

skip-At : (c : Cursor) (x rest : List ℕ) → At c (x ++ rest) → At (skip c (length x)) rest
skip-At c x rest h = record {
  ahead =
      drop-add c.pos_of (length x) c.bytes_of
      ∙ ap (drop (length x)) h.ahead
      ∙ drop-append_left x rest;
  inside =
      omega
        (arith, h.inside, length-drop c.pos_of c.bytes_of, ap length h.ahead, length-append x rest);
}

pub new-At : (body : List ℕ) → At (new body) body
unfolding new
new-At body = record { ahead = refl; inside = omega arith }

module _ (c : Cursor) where
  pub int-At :
      (n : ℤ) (rest : List ℕ)
      → IsI32 n
      → At c (put_varint n [] ++ rest)
      → (c' : Cursor) × (int c ≡ ok (n, c')) × At c' rest
  unfolding int
  int-At n rest hn h = (
    skip c (length (put_varint n [])),
    rw (h.ahead, varint-put_varint n rest hn, int),
    skip-At c (put_varint n []) rest h,
  )

  pub bytes-At :
      (x rest : List ℕ)
      → At c (x ++ rest)
      → (c' : Cursor) × (bytes (length x) c ≡ ok (x, c')) × At c' rest
  unfolding bytes
  bytes-At x rest h = (
    skip c (length x),
    rw h.ahead (
        rw (take-append_left x rest) (
          ground
            (arith, length-drop c.pos_of c.bytes_of, ap length h.ahead, length-append x rest))),
    skip-At c x rest h,
  )

  pub finish-At : At c [] → finish c ≡ ok (tt, c)
  unfolding finish
  finish-At h = ground (arith, length-drop c.pos_of c.bytes_of, ap length h.ahead, h.inside)

pub blob-At :
    (c : Cursor) (max : ℕ) (x rest : List ℕ)
    → length x ≤ max
    → length x < 2 ^ 31
    → At c (put_varint (pos (length x)) [] ++ (x ++ rest))
    → (c' : Cursor) × (blob max c ≡ ok (x, c')) × At c' rest
unfolding blob
blob-At c max x rest hm hx h =
    let (c₁, p, a₁) = int-At c (pos (length x)) (x ++ rest) hx h in
    let (c₂, q, a₂) = bytes-At c₁ x rest a₁ in (c₂, ground (arith, p, q), a₂)

pub string-At :
    (c : Cursor) (max : ℕ) (x cs rest : List ℕ)
    → length x ≤ max
    → length x < 2 ^ 31
    → from_utf8 x ≡ some cs
    → At c (put_varint (pos (length x)) [] ++ (x ++ rest))
    → (c' : Cursor) × (string max c ≡ ok (record { bytes = x; chars = cs }, c')) × At c' rest
unfolding string
string-At c max x cs rest hm hx hu h =
    let (c', p, a) = blob-At c max x rest hm hx h in (c', ground (arith, p, hu), a)

-- On `c` the parser succeeds with `a` and goes on at `c'`.
pub record Runs {A : Type 0} (m : Parser A) (c : Cursor) (a : A) (c' : Cursor) : Type 0 where
  pub runs : m c ≡ ok (a, c')

pub Runs-bind :
    {A B : Type 0} (m : Parser A) (f : A → Parser B) {c c₁ c₂ : Cursor} (a : A) {b : B}
    → m c ≡ ok (a, c₁)
    → Runs (f a) c₁ b c₂
    → Runs (m >>= f) c b c₂
Runs-bind m f {c₂ = c₂} a {b} h k = record {
  runs = subst (λ r. elim r [ ok (x, c') ↦ f x c' | err e ↦ err e ] ≡ ok (b, c₂)) (sym h) k.runs;
}

pub Runs-check :
    {A : Type 0} (b : Bool) (e : Error) (m : Parser A) {c c' : Cursor} {a : A}
    → b ≡ false
    → Runs m c a c'
    → Runs (reject_if b e >> m) c a c'
Runs-check true e m h k = cc
Runs-check false e m h k = k

pub Runs-end :
    {A : Type 0} (a : A) {c : Cursor} → finish c ≡ ok (tt, c) → Runs (finish >> return a) c a c
Runs-end a h = Runs-bind finish _ tt h (record { runs = refl })
