-- ===== src/Protocol/Utf8.antt =====
-- What gate/src/protocol.rs uses of Rust's strings: `str::from_utf8`, and tests on chars and bytes.
-- A char is its code point.
use xddp.Prelude.{
  ℕ, zero, suc, ◌+◌, ◌-◌, ◌*◌, List, [], ◌∷◌, Option, none, some, Bool, true, false, ◌&&◌, ◌||◌,
  ltb, leb, ◌==◌, if◌then◌else◌,
}
use mathlib.Core.Option

-- How many continuation bytes are to come, the range of the next one, and the bits read so far.
pub record Decoder : Type 0 where
  pub need : ℕ
  pub low : ℕ
  pub high : ℕ
  pub acc : ℕ

abbrev pub start : Decoder
start = record { need = 0; low = 0x80; high = 0xbf; acc = 0 }

-- The lead byte of a sequence: overlong forms, surrogates and values above 0x10ffff are shut out by
-- the range of the second byte.
abbrev lead : ℕ → Option (Decoder × Option ℕ)
lead b =
    if ltb b 0x80
    then some (start, some b)
    else if ltb b 0xc2
    then none
    else if ltb b 0xe0
    then some (record { need = 1; low = 0x80; high = 0xbf; acc = b - 0xc0 }, none)
    else if b == 0xe0
    then some (record { need = 2; low = 0xa0; high = 0xbf; acc = 0 }, none)
    else if b == 0xed
    then some (record { need = 2; low = 0x80; high = 0x9f; acc = 13 }, none)
    else if ltb b 0xf0
    then some (record { need = 2; low = 0x80; high = 0xbf; acc = b - 0xe0 }, none)
    else if b == 0xf0
    then some (record { need = 3; low = 0x90; high = 0xbf; acc = 0 }, none)
    else if ltb b 0xf4
    then some (record { need = 3; low = 0x80; high = 0xbf; acc = b - 0xf0 }, none)
    else if b == 0xf4
    then some (record { need = 3; low = 0x80; high = 0x8f; acc = 4 }, none)
    else none

abbrev follow : ℕ → Decoder → ℕ → Decoder × Option ℕ
follow zero d b = (start, some (d.acc * 64 + (b - 0x80)))
follow (suc k) d b =
    (record { need = suc k; low = 0x80; high = 0xbf; acc = d.acc * 64 + (b - 0x80) }, none)

abbrev feed_at : ℕ → Decoder → ℕ → Option (Decoder × Option ℕ)
feed_at zero d b = lead b
feed_at (suc k) d b = if leb d.low b && leb b d.high then some (follow k d b) else none

-- One byte: the next state, and the char that it completes.
pub feed : Decoder → ℕ → Option (Decoder × Option ℕ)
feed d b = feed_at d.need d b

pub decode : Decoder → List ℕ → Option (List ℕ)
decode d [] = if d.need == 0 then some [] else none
decode d (b ∷ rest) = elim (feed d b) [
  | none ↦ none
  | some (d', none) ↦ decode d' rest
  | some (d', some c) ↦ Option.map (◌∷◌ c) (decode d' rest)
]

-- The chars of valid UTF-8.
unfoldable pub from_utf8 : List ℕ → Option (List ℕ)
unfolding decode feed
from_utf8 bytes = decode start bytes

-- A `str`: its bytes and its chars.
pub record Str : Type 0 where
  pub bytes : List ℕ
  pub chars : List ℕ

module _ {ℓ} {A : Type ℓ} where
  abbrev pub any : (A → Bool) → List A → Bool
  any p [] = false
  any p (x ∷ xs) = p x || any p xs

  abbrev pub all : (A → Bool) → List A → Bool
  all p [] = true
  all p (x ∷ xs) = p x && all p xs

  abbrev pub is_empty : List A → Bool
  is_empty [] = true
  is_empty (x ∷ xs) = false

-- `char::is_control`
abbrev pub is_control : ℕ → Bool
is_control c = ltb c 0x20 || (leb 0x7f c && leb c 0x9f)

-- `s.split('\0').next().unwrap_or("")`
abbrev pub before_nul : List ℕ → List ℕ
before_nul [] = []
before_nul (c ∷ cs) = if c == 0 then [] else c ∷ before_nul cs

abbrev to_ascii_lowercase : ℕ → ℕ
to_ascii_lowercase c = if leb b'A' c && leb c b'Z' then c + 32 else c

abbrev pub eq_ignore_ascii_case : List ℕ → List ℕ → Bool
eq_ignore_ascii_case [] [] = true
eq_ignore_ascii_case [] (d ∷ ds) = false
eq_ignore_ascii_case (c ∷ cs) [] = false
eq_ignore_ascii_case (c ∷ cs) (d ∷ ds) =
    to_ascii_lowercase c == to_ascii_lowercase d && eq_ignore_ascii_case cs ds

-- `s.encode_utf16().count()`
abbrev pub utf16_count : List ℕ → ℕ
utf16_count [] = 0
utf16_count (c ∷ cs) = (if ltb c 0x10000 then 1 else 2) + utf16_count cs

abbrev pub is_ascii_alphanumeric : ℕ → Bool
is_ascii_alphanumeric b =
    (leb b'0' b && leb b b'9') || (leb b'A' b && leb b b'Z') || (leb b'a' b && leb b b'z')
