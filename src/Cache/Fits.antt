-- ===== src/Cache/Fits.antt =====
-- gate/src/cache.rs: the sizes of prepared and of rendered responses.
use xddp.Prelude.{
  ℕ, zero, suc, ◌+◌, ◌/◌, ◌%◌, ◌^◌, ◌≤◌, ◌<◌, ◌≡◌, refl, ap, sym, subst, ◌∙◌, List, [], ◌∷◌, ◌++◌,
  Option, none, some, true, false, ltb, length, length-append, lt_wf, arith,
}
use xddp.Prelude.Int.{ℤ, pos, negsuc, IsI32, ltb_ℤ}
use xddp.Cache.{
  checked_add, ◌>>=◌, varint_size, wire_size, status_frame, Prepared, digit_loop, decimal, rendered,
  render, Json, version_prefix, protocol_key, version_key, push_entries, entry_of, within,
  capped_parts, new_parts, with_parts, with_version, prepared, new_prepared,
}
use xddp.Cache.Sizes.{total, total_mono, wire_size-total, length-frame}
use native.Mathlib.Nat.{pow-suc}
use mathlib.Core.WellFounded.{Acc}

digit_loop-length :
    (k : ℕ) (out : List ℕ) (n : ℕ) (w : Acc ◌<◌ n)
    → n < 10 ^ suc k
    → length (digit_loop out n w) ≤ length out + suc k
unfolding digit_loop
digit_loop-length zero out n (Acc.intro _ smaller) h = ground arith
digit_loop-length (suc k) out n (Acc.intro _ smaller) h = grind (
  arith,
  λ (w : Acc ◌<◌ (n / 10)).
      digit_loop-length k ((48 + n % 10) ∷ out) (n / 10) w (omega (arith, pow-suc 10 (suc k))),
)

-- A protocol version has at most ten digits.
decimal-length : (n : ℕ) → n < 2 ^ 31 → length (decimal n) ≤ 10
unfolding decimal
decimal-length n h = digit_loop-length 9 [] n (lt_wf.apply n) (omega arith)

status_frame-total :
    (text : List ℕ) → length text < 2 ^ 30 → length (status_frame text) ≡ total (length text)
unfolding status_frame
status_frame-total text h = length-frame (length text) text h refl

-- What `wire_size` allows for is the frame that `status_frame` writes, below 2 ^ 30 bytes.
pub status_frame-length :
    (text : List ℕ)
    → length text < 2 ^ 30
    → wire_size (length text) ≡ some (length (status_frame text))
status_frame-length text h =
    wire_size-total (length text) (omega (arith, h)) ∙ ap some (sym (status_frame-total text h))

bind-some :
    {A B : Type 0} (o : Option A) (f : A → Option B) (b : B)
    → (o >>= f) ≡ some b
    → (a : A) × (o ≡ some a) × (f a ≡ some b)
bind-some none f b e = absurd (ground (arith, e))
bind-some (some a) f b e = (a, refl, e)

checked_add-some : (a b c : ℕ) → checked_add a b ≡ some c → a + b ≡ c
checked_add-some a b c e = ground (arith, e)

wire_size-ge : (n size : ℕ) → wire_size n ≡ some size → n ≤ size
unfolding wire_size
wire_size-ge n size e =
    let (m, e₁, e') = bind-some (checked_add n (varint_size n)) _ size e in
    let (k, e₂, e₃) = bind-some (checked_add m 1) _ size e' in
    omega (
      arith,
      checked_add-some n (varint_size n) m e₁,
      checked_add-some m 1 k e₂,
      checked_add-some k (varint_size k) size e₃,
    )

total-ge : (n : ℕ) → n ≤ total n
unfolding total
total-ge n = omega arith

within-le : (size max : ℕ) → ltb max size ≡ false → size ≤ max
within-le size max h = ground (arith, h)

-- So many bytes of JSON fit.
fits-total :
    (n size max : ℕ) → wire_size n ≡ some size → ltb max size ≡ false → max ≤ 2 ^ 20 → total n ≤ max
fits-total n size max e fit h =
    let bound : size ≤ max = ground (arith, fit) in
    let exact : total n ≡ size =
      ground (arith, wire_size-total n (omega (arith, wire_size-ge n size e, bound, h)), e) in
    omega (arith, exact, bound)

abbrev pub PartsFit : ℕ → Option (List ℕ × List ℕ) → Type 0
PartsFit max none = Unit {0}
PartsFit max (some (prefix, suffix)) = total (length prefix + 10 + length suffix) ≤ max

abbrev pub Fits : ℕ → Prepared → Type 0
Fits max p = (length p.original ≤ max) × PartsFit max p.parts

module _ (json : Json) where
  open json use {Value, to_vec, key_to_vec, as_object}

  within-some : (size max : ℕ) (u : Unit {0}) → within json size max ≡ some u → ltb max size ≡ false
  within-some size max u e = ground (arith, e)

  capped_parts-Fit :
      (max : ℕ) (prefix suffix : List ℕ) (parts : List ℕ × List ℕ)
      → max ≤ 2 ^ 20
      → capped_parts json max prefix suffix ≡ some parts
      → PartsFit max (some parts)
  capped_parts-Fit max prefix suffix parts h e =
      let (n, e₁, r₁) = bind-some (checked_add (length prefix) 10) _ parts e in
      let (json_len, e₂, r₂) = bind-some (checked_add n (length suffix)) _ parts r₁ in
      let (size, e₃, r₃) = bind-some (wire_size json_len) _ parts r₂ in
      let (u, e₄, r₄) = bind-some (within json size max) _ parts r₃ in
      let same : (prefix, suffix) ≡ parts = ground (arith, r₄) in
      let bound = fits-total json_len size max e₃ (within-some size max u e₄) h in
      let sum : json_len ≡ length prefix + 10 + length suffix = omega (
        arith,
        checked_add-some (length prefix) 10 n e₁,
        checked_add-some n (length suffix) json_len e₂,
      ) in
      subst (λ t. PartsFit max (some t)) same (subst (λ (t : ℕ). total t ≤ max) sum bound)

  new_parts-Fit :
      (object : List (List ℕ × Value)) (max : ℕ) (version : List (List ℕ × Value))
      (parts : List ℕ × List ℕ)
      → max ≤ 2 ^ 20
      → new_parts json object max version ≡ some parts
      → PartsFit max (some parts)
  new_parts-Fit object max version parts h e =
      let (of_version, e₁, r₁) = bind-some (push_entries json protocol_key version []) _ parts e in
      let (others, e₂, r₂) =
        bind-some (push_entries json version_key object (of_version ++ 125 ∷ [])) _ parts r₁ in
      capped_parts-Fit max version_prefix (others ++ 125 ∷ []) parts h r₂

  plain-Fits :
      (original : List ℕ) (max : ℕ) (p : Prepared)
      → length original ≤ max
      → some (record { original = original; parts = none }) ≡ some p
      → Fits max p
  plain-Fits original max p l e =
      let same : record { original = original; parts = none } ≡ p = ground (arith, e) in
      subst (Fits max) same (l, tt)

  with_parts-Fits :
      (original : List ℕ) (max : ℕ) (parts : Option (List ℕ × List ℕ)) (p : Prepared)
      → length original ≤ max
      → ((ps : List ℕ × List ℕ) → parts ≡ some ps → PartsFit max (some ps))
      → with_parts json original parts ≡ some p
      → Fits max p
  with_parts-Fits original max none p l f e = absurd (ground (arith, e))
  with_parts-Fits original max (some ps) p l f e =
      let same : record { original = original; parts = some ps } ≡ p = ground (arith, e) in
      subst (Fits max) same (l, f ps refl)

  with_version-Fits :
      (original : List ℕ) (max : ℕ) (object : List (List ℕ × Value))
      (version : Option (List (List ℕ × Value))) (p : Prepared)
      → max ≤ 2 ^ 20
      → length original ≤ max
      → with_version json original max object version ≡ some p
      → Fits max p
  with_version-Fits original max object none p h l e = plain-Fits original max p l e
  with_version-Fits original max object (some version) p h l e =
      with_parts-Fits original max (new_parts json object max version) p l
        (λ ps q. new_parts-Fit object max version ps h q) e

  prepared-Fits :
      (original : List ℕ) (max : ℕ) (object : Option (List (List ℕ × Value))) (p : Prepared)
      → max ≤ 2 ^ 20
      → length original ≤ max
      → prepared json original max object ≡ some p
      → Fits max p
  prepared-Fits original max none p h l e = plain-Fits original max p l e
  prepared-Fits original max (some object) p h l e =
      with_version-Fits original max object (entry_of json version_key object >>= as_object) p h l e

  -- Whatever `Prepared::new` prepares is within the cap: the frame of the value as it is, and the
  -- room for a client's version of ten digits. The cap is at most 2 ^ 20, as `validate` ensures.
  pub new_prepared-Fits :
      (value : Value) (max : ℕ) (p : Prepared)
      → max ≤ 2 ^ 20
      → new_prepared json value max ≡ some p
      → Fits max p
  unfolding new_prepared
  new_prepared-Fits value max p h e =
      let (text, e₁, r₁) = bind-some (to_vec value) _ p e in
      let (size, e₂, r₂) = bind-some (wire_size (length text)) _ p r₁ in
      let (u, e₃, r₃) = bind-some (within json size max) _ p r₂ in
      let fit = within-some size max u e₃ in
      let bound = fits-total (length text) size max e₂ fit h in
      let small : length text < 2 ^ 30 =
        omega (arith, wire_size-ge (length text) size e₂, within-le size max fit, h) in
      let sent = status_frame-total text small in
      prepared-Fits (status_frame text) max (as_object value) p h (omega (arith, sent, bound)) r₃

-- The rendered response for a version of the client.
rendered-Fits :
    (max : ℕ) (original : List ℕ) (version : ℕ) (parts : Option (List ℕ × List ℕ))
    → max ≤ 2 ^ 20
    → version < 2 ^ 31
    → length original ≤ max
    → PartsFit max parts
    → length (rendered original (pos version) parts) ≤ max
rendered-Fits max original version none h v l f = l
rendered-Fits max original version (some (prefix, suffix)) h v l f =
    let digits = decimal-length version v in
    let number = decimal version in
    let n = length prefix + length number + length suffix in
    let most = length prefix + 10 + length suffix in
    let room : most ≤ max = omega (arith, total-ge most, f) in
    let body_length : length (prefix ++ number ++ suffix) ≡ n =
      omega (arith, length-append (prefix ++ number) suffix, length-append prefix number) in
    let sent =
      length-frame n (prefix ++ number ++ suffix) (omega (arith, room, digits, h)) body_length in
    omega (arith, sent, total_mono n most (omega (arith, digits)) (omega (arith, room, h)), f)

-- A prepared response stays within the cap for every protocol version that a client sends.
pub render-Fits :
    (max : ℕ) (p : Prepared) (version : ℤ)
    → max ≤ 2 ^ 20
    → IsI32 version
    → Fits max p
    → length (render p version) ≤ max
unfolding render
render-Fits max p (pos version) h v (l, f) =
    let nonnegative : ltb_ℤ (pos version) (pos 0) ≡ false = ground arith in
    rw nonnegative (rendered-Fits max p.original version p.parts h v l f)
render-Fits max p (negsuc version) h v (l, f) =
    let negative : ltb_ℤ (negsuc version) (pos 0) ≡ true = ground arith in rw negative l
