-- ===== src/IncomingProxy/Fields.antt =====
-- gate/src/incoming_proxy.rs and gate/src/cache.rs: the fields of the address part.
use xddp.Prelude.{
  ℕ, ◌+◌, ◌<◌, ◌^◌, ◌≡◌, refl, ap, sym, ◌∙◌, List, [], ◌++◌, length, length-append, take, drop,
  take-append_left, drop-append_left, arith,
}
use xddp.Socket.{to_be, from_be, length-to_be, from_be-to_be}
use xddp.IncomingProxy.{field}
use mathlib.Core.List.{append_assoc, append-nil}

-- A field of a list that is cut at its ends.
field-to_be :
    (i n v : ℕ) (before after : List ℕ)
    → length before ≡ i
    → v < 256 ^ n
    → field i n (before ++ (to_be n v ++ after)) ≡ v
field-to_be i n v before after h k =
    let dropped : drop i (before ++ (to_be n v ++ after)) ≡ to_be n v ++ after =
      ap (λ (j : ℕ). drop j (before ++ (to_be n v ++ after))) (sym h)
      ∙ drop-append_left before (to_be n v ++ after) in
    let taken : take n (to_be n v ++ after) ≡ to_be n v =
      ap (λ (j : ℕ). take j (to_be n v ++ after)) (sym (length-to_be n v))
      ∙ take-append_left (to_be n v) after in
    ap (λ (t : List ℕ). from_be (take n t)) dropped ∙ ap from_be taken ∙ from_be-to_be n v k

-- The part after the header, with addresses of `n` bytes.
abbrev pub part : ℕ → ℕ → ℕ → ℕ → ℕ → List ℕ
part n s d p q = (to_be n s ++ to_be n d) ++ (to_be 2 p ++ to_be 2 q)

module _ (n s d p q : ℕ) (hs : s < 256 ^ n) (hd : d < 256 ^ n) (hp : p < 2 ^ 16)
    (hq : q < 2 ^ 16) where
  pub length-part : length (part n s d p q) ≡ n + n + 4
  length-part = omega (
    arith,
    length-append (to_be n s ++ to_be n d) (to_be 2 p ++ to_be 2 q),
    length-append (to_be n s) (to_be n d),
    length-append (to_be 2 p) (to_be 2 q),
    length-to_be n s,
    length-to_be n d,
    length-to_be 2 p,
    length-to_be 2 q,
  )

  both : length (to_be n s ++ to_be n d) ≡ n + n
  both = omega (arith, length-append (to_be n s) (to_be n d), length-to_be n s, length-to_be n d)

  pub source : field 0 n (part n s d p q) ≡ s
  source =
      ap (field 0 n) (append_assoc (to_be n s) (to_be n d) (to_be 2 p ++ to_be 2 q))
      ∙ field-to_be 0 n s [] (to_be n d ++ (to_be 2 p ++ to_be 2 q)) refl hs

  pub target : field n n (part n s d p q) ≡ d
  target =
      ap (field n n) (append_assoc (to_be n s) (to_be n d) (to_be 2 p ++ to_be 2 q))
      ∙ field-to_be n n d (to_be n s) (to_be 2 p ++ to_be 2 q) (length-to_be n s) hd

  pub source_port : field (n + n) 2 (part n s d p q) ≡ p
  source_port = field-to_be (n + n) 2 p (to_be n s ++ to_be n d) (to_be 2 q) both hp

  pub target_port : field (n + n + 2) 2 (part n s d p q) ≡ q
  target_port =
      ap (field (n + n + 2) 2) (
        sym (append_assoc (to_be n s ++ to_be n d) (to_be 2 p) (to_be 2 q))
        ∙ ap (λ (t : List ℕ). ((to_be n s ++ to_be n d) ++ to_be 2 p) ++ t)
            (sym (append-nil (to_be 2 q))))
      ∙ field-to_be (n + n + 2) 2 q ((to_be n s ++ to_be n d) ++ to_be 2 p) []
          (omega
            (arith, both, length-append (to_be n s ++ to_be n d) (to_be 2 p), length-to_be 2 p))
          hq
