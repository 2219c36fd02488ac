-- ===== src/Protocol/Cursor/Extent.antt =====
-- gate/src/protocol.rs: how far the methods of `Cursor` move, and that they stay within the data.
use xddp.Prelude.{
  ℕ, zero, suc, ◌+◌, ◌-◌, ◌≤◌, ◌≡◌, refl, ap, List, [], ◌∷◌, Option, none, some, Bool, true, false,
  length, length-drop, drop, All, ltb, ◌||◌, arith,
}
use xddp.Prelude.Int.{pos, pos_part, ltb_ℤ}
use xddp.Protocol.Base.{Error, Result, ok, err, oversized, IsByte, invalid}
use xddp.Protocol.Varint.Decode.{varint_bounds}
use xddp.Protocol.Utf8.{from_utf8}
use xddp.Protocol.Cursor.{
  Cursor, Parser, new, ◌>>=◌, ◌>>◌, return, fail, reject_if, int, bytes, boolean, blob, string,
  finish, flag, decoded,
}

pub record IsValid (c : Cursor) : Type 0 where
  pub inside : c.pos_of ≤ length c.bytes_of
  pub all_bytes : All IsByte c.bytes_of

-- From `c` to `c'` by at most `k` bytes, within the same data.
pub record Moved (k : ℕ) (c c' : Cursor) : Type 0 where
  pub same : c'.bytes_of ≡ c.bytes_of
  pub ahead : c.pos_of ≤ c'.pos_of
  pub within : c'.pos_of ≤ c.pos_of + k
  pub inside : c'.pos_of ≤ length c'.bytes_of

-- Where the parser succeeds, it moves by at most `k` bytes.
pub record Extent {A : Type 0} (m : Parser A) (k : ℕ) : Type 0 where
  pub moves : (c c' : Cursor) (a : A) → IsValid c → m c ≡ ok (a, c') → Moved k c c'

drop-All : (n : ℕ) (xs : List ℕ) → All IsByte xs → All IsByte (drop n xs)
drop-All zero xs h = h
drop-All (suc n) [] h = h
drop-All (suc n) (x ∷ xs) (p, h) = drop-All n xs h

Moved-IsValid : (k : ℕ) (c c' : Cursor) → IsValid c → Moved k c c' → IsValid c'
Moved-IsValid k c c' v m = record { inside = m.inside; all_bytes = rw m.same v.all_bytes }

module _ {A B : Type 0} where
  bind_moves :
      (r : Result (A × Cursor)) (f : A → Parser B) (j k : ℕ) (c c' : Cursor) (b : B)
      → IsValid c
      → ((c₁ : Cursor) (a : A) → r ≡ ok (a, c₁) → Moved j c c₁)
      → ((a : A) → Extent (f a) k)
      → elim r [ ok (a, c₁) ↦ f a c₁ | err e ↦ err e ] ≡ ok (b, c')
      → Moved (j + k) c c'
  bind_moves (err e) f j k c c' b v hm hf h = cc
  bind_moves (ok (a, c₁)) f j k c c' b v hm hf h =
      let first = hm c₁ a refl in
      let second = (hf a).moves c₁ c' b (Moved-IsValid j c c₁ v first) h in
      ground (arith, first, second)

  pub Extent-bind :
      (m : Parser A) (f : A → Parser B) (j k : ℕ)
      → Extent m j
      → ((a : A) → Extent (f a) k)
      → Extent (m >>= f) (j + k)
  Extent-bind m f j k hm hf = record {
    moves = λ c c' b v h. bind_moves (m c) f j k c c' b v (λ c₁ a e. hm.moves c c₁ a v e) hf h;
  }

module _ {A : Type 0} where
  pub Extent-le : (m : Parser A) (j k : ℕ) → j ≤ k → Extent m j → Extent m k
  Extent-le m j k h hm = record { moves = λ c c' a v e. ground (arith, hm.moves c c' a v e) }

  pub Extent-return : (a : A) → Extent (return a) 0
  Extent-return a = record { moves = λ c c' b v h. ground (arith, v) }

  pub Extent-fail : (e : Error) → Extent (fail {A = A} e) 0
  Extent-fail e = record { moves = λ c c' b v h. cc }

pub Extent-reject_if : (b : Bool) (e : Error) → Extent (reject_if b e) 0
Extent-reject_if true e = record { moves = λ c c' a v h. cc }
Extent-reject_if false e = record { moves = λ c c' a v h. ground (arith, v) }

pub Extent-int : Extent int 5
unfolding int
Extent-int = record {
  moves = λ c c' n v h. ground (
    arith,
    length-drop c.pos_of c.bytes_of,
    varint_bounds (drop c.pos_of c.bytes_of) n (c'.pos_of - c.pos_of),
    drop-All c.pos_of c.bytes_of v.all_bytes,
  );
}

pub Extent-bytes : (n : ℕ) → Extent (bytes n) n
unfolding bytes
Extent-bytes n = record { moves = λ c c' b v h. ground (arith, v) }

pub Extent-finish : Extent finish 0
unfolding finish
Extent-finish = record { moves = λ c c' b v h. ground (arith, v) }

-- A guard, and what follows it where the test is false.
pub Extent-guard :
    {A : Type 0} (b : Bool) (e : Error) (m : Parser A) (k : ℕ)
    → (b ≡ false → Extent m k)
    → Extent (reject_if b e >> m) k
Extent-guard true e m k h = record { moves = λ c c' a v p. cc }
Extent-guard false e m k h = record { moves = λ c c' a v p. (h refl).moves c c' a v p }

Extent-flag : (b : List ℕ) → Extent (flag b) 0
Extent-flag [] = Extent-fail invalid
Extent-flag (zero ∷ bs) = Extent-return false
Extent-flag (suc zero ∷ bs) = Extent-return true
Extent-flag (suc (suc b) ∷ bs) = record { moves = λ c c' a v p. absurd (ground (arith, p)) }

pub Extent-boolean : Extent boolean 1
unfolding boolean
Extent-boolean = Extent-bind (bytes 1) flag 1 0 (Extent-bytes 1) Extent-flag

pub Extent-blob : (max : ℕ) → Extent (blob max) (5 + max)
unfolding blob
Extent-blob max = Extent-bind int _ 5 max Extent-int λ n.
    Extent-guard (ltb_ℤ n (pos 0) || ltb max (pos_part n)) oversized _ max λ p.
      Extent-le (bytes (pos_part n)) (pos_part n) max (ground arith) (Extent-bytes (pos_part n))

Extent-decoded : (b : List ℕ) (o : Option (List ℕ)) → Extent (decoded b o) 0
Extent-decoded b none = Extent-fail invalid
Extent-decoded b (some cs) = Extent-return (record { bytes = b; chars = cs })

pub Extent-string : (max : ℕ) → Extent (string max) (5 + max)
unfolding string
Extent-string max =
    Extent-le _ (5 + max + 0) (5 + max) (omega arith)
      (Extent-bind (blob max) _ (5 + max) 0 (Extent-blob max) (λ b. Extent-decoded b (from_utf8 b)))

-- Where the parser succeeds, it has read all of the data.
pub record Ends {A : Type 0} (m : Parser A) : Type 0 where
  pub ends : (c c' : Cursor) (a : A) → m c ≡ ok (a, c') → c'.pos_of ≡ length c'.bytes_of

module _ {A B : Type 0} where
  bind-Ends :
      (r : Result (A × Cursor)) (f : A → Parser B) (c' : Cursor) (b : B)
      → ((a : A) → Ends (f a))
      → elim r [ ok (a, c₁) ↦ f a c₁ | err e ↦ err e ] ≡ ok (b, c')
      → c'.pos_of ≡ length c'.bytes_of
  bind-Ends (err e) f c' b hf h = cc
  bind-Ends (ok (a, c₁)) f c' b hf h = (hf a).ends c₁ c' b h

  pub Ends-bind : (m : Parser A) (f : A → Parser B) → ((a : A) → Ends (f a)) → Ends (m >>= f)
  Ends-bind m f hf = record { ends = λ c c' b h. bind-Ends (m c) f c' b hf h }

pub Ends-finish : Ends finish
unfolding finish
Ends-finish = record { ends = λ c c' a h. ground arith }

ends_return :
    {A B : Type 0} (r : Result (A × Cursor)) (b b' : B) (c' : Cursor)
    → ((c : Cursor) (a : A) → r ≡ ok (a, c) → c.pos_of ≡ length c.bytes_of)
    → elim r [ ok (a, c) ↦ return b c | err e ↦ err e ] ≡ ok (b', c')
    → c'.pos_of ≡ length c'.bytes_of
ends_return (err e) b b' c' hr h = cc
ends_return (ok (a, c)) b b' c' hr h = ground (arith, hr c a refl)

pub Ends-return : {A B : Type 0} (m : Parser A) (b : B) → Ends m → Ends (m >>= λ _. return b)
Ends-return m b hm = record {
  ends = λ c c' b' h. ends_return (m c) b b' c' (λ c₁ a e. hm.ends c c₁ a e) h;
}

-- A body that such a parser accepts is no longer than its extent.
pub Ends-length :
    {A : Type 0} (m : Parser A) (k : ℕ) (body : List ℕ) (c : Cursor) (a : A)
    → Extent m k
    → Ends m
    → All IsByte body
    → m (new body) ≡ ok (a, c)
    → length body ≤ k
unfolding new
Ends-length m k body c a hm he hb h =
    let moved = hm.moves (new body) c a (record { inside = omega arith; all_bytes = hb }) h in
    omega (arith, moved, he.ends (new body) c a h, ap length moved.same)
