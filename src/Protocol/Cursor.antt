-- ===== src/Protocol/Cursor.antt =====
-- gate/src/protocol.rs: `Cursor`. A method takes the cursor and returns its result with the cursor
-- after it; after an error the cursor is dropped.
pub mod Extent
pub mod Reads
use xddp.Prelude.{
  ℕ, ◌+◌, ◌-◌, List, [], ◌∷◌, Option, none, some, Bool, true, false, ◌||◌, ltb, ◌==◌, if◌then◌else◌,
  length, take, drop,
}
use xddp.Prelude.Int.{ℤ, pos, pos_part, ltb_ℤ}
use xddp.Protocol.Base.{Error, oversized, invalid, Result, ok, err, or_fail, ◌>>=◌ as ◌then◌}
use xddp.Protocol.Varint.{varint}
use xddp.Protocol.Utf8.{Str, from_utf8}

pub record Cursor : Type 0 where
  pub bytes_of : List ℕ
  pub pos_of : ℕ

unfoldable pub new : List ℕ → Cursor
new bytes = record { bytes_of = bytes; pos_of = 0 }

abbrev pub Parser : Type 0 → Type 0
Parser A = Cursor → Result (A × Cursor)

infixl 5 ◌>>=◌ ◌>>◌
abbrev pub ◌>>=◌ : {A B : Type 0} → Parser A → (A → Parser B) → Parser B
◌>>=◌ m f c = elim (m c) [ ok (a, c') ↦ f a c' | err e ↦ err e ]

abbrev pub ◌>>◌ : {B : Type 0} → Parser (Unit {0}) → Parser B → Parser B
m >> k = m >>= λ _. k

abbrev pub return : {A : Type 0} → A → Parser A
return a c = ok (a, c)

abbrev pub fail : {A : Type 0} → Error → Parser A
fail e c = err e

-- `if test { return Err(e); }`
abbrev pub reject_if : Bool → Error → Parser (Unit {0})
reject_if true e c = err e
reject_if false e c = ok (tt, c)

-- `varint(&self.data[self.pos..])?.ok_or(Error::Invalid)?`
unfoldable pub int : Parser ℤ
int c = elim (varint (drop c.pos_of c.bytes_of)) [
  | err e ↦ err e
  | ok none ↦ err invalid
  | ok (some (n, used)) ↦ ok (n, record c { pos_of = c.pos_of + used })
]

unfoldable pub bytes : ℕ → Parser (List ℕ)
bytes n c =
    if ltb (length c.bytes_of - c.pos_of) n
    then err invalid
    else ok (take n (drop c.pos_of c.bytes_of), record c { pos_of = c.pos_of + n })

-- `self.bytes(1)?[0]`, by the one byte that `bytes(1)` returned.
abbrev flag : List ℕ → Parser Bool
flag [] = fail invalid
flag (b ∷ bs) = if b == 0 then return false else if b == 1 then return true else fail invalid

unfoldable pub boolean : Parser Bool
boolean = do b ← bytes 1; flag b

unfoldable pub blob : ℕ → Parser (List ℕ)
blob max = do
  n ← int
  reject_if (ltb_ℤ n (pos 0) || ltb max (pos_part n)) oversized
  bytes (pos_part n)

abbrev decoded : List ℕ → Option (List ℕ) → Parser Str
decoded b none = fail invalid
decoded b (some cs) = return (record { bytes = b; chars = cs })

unfoldable pub string : ℕ → Parser Str
string max = do b ← blob max; decoded b (from_utf8 b)

unfoldable pub finish : Parser (Unit {0})
finish c = if c.pos_of == length c.bytes_of then ok (tt, c) else err invalid
