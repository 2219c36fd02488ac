-- ===== src/Cache.antt =====
-- gate/src/cache.rs: the status cache. `serde_json` is a parameter; the strings of an object are bytes.
pub mod Header
pub mod Sizes
pub mod Fits
pub mod Status
pub mod Rounds
pub mod Expiry
pub mod Examples
use xddp.Prelude.{
  ℕ, zero, suc, ◌+◌, ◌-◌, ◌*◌, ◌/◌, ◌%◌, ◌^◌, ◌<◌, ◌≤◌, List, [], ◌∷◌, ◌++◌, Option, none, some,
  Bool, true, false, not, ◌&&◌, ltb, leb, ◌==◌, if◌then◌else◌, length, lt_wf, arith,
}
use xddp.Prelude.Int.{ℤ, pos, to_i32, pos_part, ltb_ℤ, leb_ℤ}
use xddp.Metrics.{Metrics, inc, dec}
use xddp.Protocol.Base.{Result, ok, err}
use xddp.Protocol.Varint.{put_varint, frame}
use mathlib.Core.Logic.{dite}
use mathlib.Core.WellFounded.{Acc}
use native.Mathlib.Decide.{dec_le}

pub shrinks : (n : ℕ) → 128 ≤ n → n / 128 < n
shrinks n h = omega arith

-- `while n>=128 { size+=1; n>>=7; }`
pub size_loop : ℕ → (n : ℕ) → Acc ◌<◌ n → ℕ
size_loop size n (Acc.intro _ smaller) =
    dite (dec_le 128 n) (λ more. size_loop (size + 1) (n / 128) (smaller _ (shrinks n more)))
      (λ _. size)

unfoldable pub varint_size : ℕ → ℕ
unfolding size_loop lt_wf
varint_size n = size_loop 1 n (lt_wf.apply n)

abbrev pub checked_add : ℕ → ℕ → Option ℕ
checked_add a b = if ltb (2 ^ 64 - 1) (a + b) then none else some (a + b)

infixl 5 ◌>>=◌
abbrev pub ◌>>=◌ : {A B : Type 0} → Option A → (A → Option B) → Option B
none >>= f = none
some a >>= f = f a

unfoldable pub wire_size : ℕ → Option ℕ
wire_size json_len = do
  n ← checked_add json_len (varint_size json_len)
  body_len ← checked_add n 1
  checked_add body_len (varint_size body_len)

-- The length is cast to i32.
unfoldable pub status_frame : List ℕ → List ℕ
status_frame text = frame (put_varint (to_i32 (length text % 2 ^ 32)) (0 ∷ []) ++ text)

pub record Prepared : Type 0 where
  pub original : List ℕ
  pub parts : Option (List ℕ × List ℕ)

pub below_ten : (n : ℕ) → 10 ≤ n → n / 10 < n
below_ten n h = omega arith

-- `to_string` of a nonnegative number, in front of the digits that follow.
pub digit_loop : List ℕ → (n : ℕ) → Acc ◌<◌ n → List ℕ
digit_loop out n (Acc.intro _ smaller) =
    dite (dec_le 10 n)
      (λ more. digit_loop ((48 + n % 10) ∷ out) (n / 10) (smaller _ (below_ten n more)))
      (λ _. (48 + n) ∷ out)

unfoldable pub decimal : ℕ → List ℕ
unfolding digit_loop lt_wf
decimal n = digit_loop [] n (lt_wf.apply n)

abbrev pub rendered : List ℕ → ℤ → Option (List ℕ × List ℕ) → List ℕ
rendered original version none = original
rendered original version (some (prefix, suffix)) =
    let number = decimal (pos_part version) in
    let length' = length prefix + length number + length suffix in
    frame (put_varint (to_i32 (length' % 2 ^ 32)) (0 ∷ []) ++ (prefix ++ number ++ suffix))

unfoldable pub render : Prepared → ℤ → List ℕ
render p version = if ltb_ℤ version (pos 0) then p.original else rendered p.original version p.parts

-- `{"version":{"protocol":`
abbrev pub version_prefix : List ℕ
version_prefix =
    123 ∷ 34 ∷ 118 ∷ 101 ∷ 114 ∷ 115 ∷ 105 ∷ 111 ∷ 110 ∷ 34 ∷ 58 ∷ 123 ∷ 34 ∷ 112 ∷ 114 ∷ 111 ∷ 116
    ∷ 111 ∷ 99 ∷ 111 ∷ 108 ∷ 34 ∷ 58 ∷ []

-- `version` and `protocol`.
abbrev pub version_key : List ℕ
version_key = 118 ∷ 101 ∷ 114 ∷ 115 ∷ 105 ∷ 111 ∷ 110 ∷ []

abbrev pub protocol_key : List ℕ
protocol_key = 112 ∷ 114 ∷ 111 ∷ 116 ∷ 111 ∷ 99 ∷ 111 ∷ 108 ∷ []

-- Values, `to_vec` of a value and of a key, `from_str`, and the entries of an object in their order.
pub record Json : Type 1 where
  pub Value : Type 0
  pub to_vec : Value → Option (List ℕ)
  pub key_to_vec : List ℕ → Option (List ℕ)
  pub from_str : List ℕ → Option Value
  pub as_object : Value → Option (List (List ℕ × Value))

abbrev pub same_key : List ℕ → List ℕ → Bool
same_key [] [] = true
same_key [] (y ∷ ys) = false
same_key (x ∷ xs) [] = false
same_key (x ∷ xs) (y ∷ ys) = x == y && same_key xs ys

module _ (json : Json) where
  open json use {Value, to_vec, key_to_vec, as_object}

  -- `value.get(key)` on the entries of an object.
  abbrev pub entry_of : List ℕ → List (List ℕ × Value) → Option Value
  entry_of key [] = none
  entry_of key ((k, v) ∷ entries) = if same_key k key then some v else entry_of key entries

  -- `,key:value` for each entry but that of one key.
  abbrev pub push_entries : List ℕ → List (List ℕ × Value) → List ℕ → Option (List ℕ)
  push_entries skipped [] suffix = some suffix
  push_entries skipped ((k, v) ∷ entries) suffix =
      let pushed = do
        key ← key_to_vec k
        val ← to_vec v
        push_entries skipped entries (suffix ++ 44 ∷ key ++ 58 ∷ val)
      in if same_key k skipped then push_entries skipped entries suffix else pushed

  abbrev pub within : ℕ → ℕ → Option (Unit {0})
  within size max = if ltb max size then none else some tt

  -- The parts, unless they exceed the cap with a version of ten digits between them.
  abbrev pub capped_parts : ℕ → List ℕ → List ℕ → Option (List ℕ × List ℕ)
  capped_parts max prefix suffix = do
    n ← checked_add (length prefix) 10
    json_len ← checked_add n (length suffix)
    size ← wire_size json_len
    ok_size ← within size max
    some (prefix, suffix)

  -- The parts of an object whose version is one, with the entries of the version.
  abbrev pub new_parts :
      List (List ℕ × Value) → ℕ → List (List ℕ × Value) → Option (List ℕ × List ℕ)
  new_parts object max version = do
    of_version ← push_entries protocol_key version []
    others ← push_entries version_key object (of_version ++ 125 ∷ [])
    capped_parts max version_prefix (others ++ 125 ∷ [])

  abbrev pub with_parts : List ℕ → Option (List ℕ × List ℕ) → Option Prepared
  with_parts original none = none
  with_parts original (some parts) = some (record { original = original; parts = some parts })

  abbrev pub with_version :
      List ℕ → ℕ → List (List ℕ × Value) → Option (List (List ℕ × Value)) → Option Prepared
  with_version original max object none = some (record { original = original; parts = none })
  with_version original max object (some version) =
      with_parts original (new_parts object max version)

  -- The parts, when the value is an object whose version is an object.
  abbrev pub prepared : List ℕ → ℕ → Option (List (List ℕ × Value)) → Option Prepared
  prepared original max none = some (record { original = original; parts = none })
  prepared original max (some object) =
      with_version original max object (entry_of version_key object >>= as_object)

  unfoldable pub new_prepared : Value → ℕ → Option Prepared
  new_prepared value max = do
    text ← to_vec value
    size ← wire_size (length text)
    ok_size ← within size max
    prepared (status_frame text) max (as_object value)

  abbrev pub is_prepared : Option Prepared → Bool
  is_prepared none = false
  is_prepared (some p) = true

  unfoldable pub valid_status : Value → ℕ → Bool
  valid_status value max = is_prepared (new_prepared value max)
