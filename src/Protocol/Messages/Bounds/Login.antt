-- ===== src/Protocol/Messages/Bounds/Login.antt =====
-- gate/src/protocol.rs: `login_max` covers every login that `login` accepts.
use xddp.Prelude.{
  ℕ, ◌+◌, ◌≤◌, ◌≡◌, refl, min, List, Bool, true, false, not, ◌||◌, length, All, inl, inr,
  Bool-cases, arith,
}
use xddp.Prelude.Int.{ℤ, pos, eqb_ℤ, ltb_ℤ}
use xddp.Config.Protocol.{
  Protocol, Schema, legacy, signed, signed_uuid, optional_uuid, uuid, backend, other,
}
use xddp.Protocol.Base.{IsByte, Result, ok, err, invalid, unsupported, Result-cases, err-ne-ok}
use xddp.Protocol.Base
use xddp.Protocol.Cursor.{Parser, ◌>>=◌, ◌>>◌, return, reject_if, int, bytes, boolean, blob, string}
use xddp.Protocol.Cursor.Extent.{
  Extent, Extent-bind, Extent-le, Extent-return, Extent-int, Extent-bytes, Extent-boolean,
  Extent-blob, Extent-string, Extent-finish, Ends, Ends-bind, Ends-finish,
}
use xddp.Protocol.Messages.{
  run, login_schema, known, login_extra, login_max_of, login_max, bad_name, when, signature,
  optional_id, login_tail, login_body, login_rest, login,
}
use xddp.Protocol.Messages.Bounds.{run_fits, Extent-check}

when-Extent : (b : Bool) (m : Parser (Unit {0})) (k : ℕ) → Extent m k → Extent (when b m) k
when-Extent true m k h = h
when-Extent false m k h = Extent-le (return tt) 0 k (omega arith) (Extent-return tt)

signature-Extent : Extent signature (1 + 8 + 5 + 4096 + 5 + 4096)
unfolding signature
signature-Extent = Extent-bind boolean _ 1 (8 + 5 + 4096 + 5 + 4096) Extent-boolean λ present.
    when-Extent present _ _ (
      Extent-bind (bytes 8) _ 8 (5 + 4096 + 5 + 4096) (Extent-bytes 8) λ _.
        Extent-bind (blob 4096) _ (5 + 4096) (5 + 4096) (Extent-blob 4096)
          λ _. Extent-bind (blob 4096) _ (5 + 4096) 0 (Extent-blob 4096) λ _. Extent-return tt)

optional_id-Extent : Extent optional_id 17
unfolding optional_id
optional_id-Extent = Extent-bind boolean _ 1 16 Extent-boolean λ present.
    when-Extent present _ 16 (Extent-bind (bytes 16) _ 16 0 (Extent-bytes 16) λ _. Extent-return tt)

-- What follows the name takes no more than `login_max` sets aside for the schema.
tail-Extent :
    (schema : Schema) (extra : ℕ) → login_extra schema ≡ ok extra → Extent (login_tail schema) extra
tail-Extent legacy extra e = Extent-le _ 0 extra (omega arith) (Extent-return tt)
tail-Extent signed extra e =
    Extent-le _ (1 + 8 + 5 + 4096 + 5 + 4096) extra (ground arith) signature-Extent
tail-Extent signed_uuid extra e =
    Extent-le _ (1 + 8 + 5 + 4096 + 5 + 4096 + 17) extra (ground arith) (
      Extent-bind signature _ (1 + 8 + 5 + 4096 + 5 + 4096) 17 signature-Extent
        (λ _. optional_id-Extent))
tail-Extent optional_uuid extra e = Extent-le _ 17 extra (ground arith) optional_id-Extent
tail-Extent uuid extra e =
    Extent-le _ (16 + 0) extra (ground arith)
      (Extent-bind (bytes 16) _ 16 0 (Extent-bytes 16) (λ _. Extent-return tt))
tail-Extent backend extra e = cc
tail-Extent (other name) extra e = cc

module _ (cfg : Protocol) (schema : Schema) (extra : ℕ) (h : login_extra schema ≡ ok extra) where
  abbrev whole_login : Parser (Unit {0})
  whole_login = do id ← int; reject_if (not (eqb_ℤ id (pos 0))) invalid; login_body cfg schema

  login-Extent : Extent whole_login (5 + 5 + 64 + extra)
  unfolding login_body
  login-Extent = Extent-le _ (5 + (5 + 64 + extra)) _ (omega arith) (
      Extent-bind int _ 5 (5 + 64 + extra) Extent-int λ id.
        Extent-check (not (eqb_ℤ id (pos 0))) _ (5 + 64 + extra) (
          Extent-bind (string 64) _ (5 + 64) extra (Extent-string 64) λ name.
            Extent-check (bad_name cfg name) _ extra (
              Extent-le _ (extra + 0) extra (omega arith) (
                Extent-bind (login_tail schema) _ extra 0 (tail-Extent schema extra h)
                  (λ _. Extent-finish)))))

  login-Ends : Ends whole_login
  unfolding login_body
  login-Ends = Ends-bind int _ λ id. Ends-bind (reject_if (not (eqb_ℤ id (pos 0))) invalid) _ λ _.
      Ends-bind (string 64) _ λ name.
        Ends-bind (reject_if (bad_name cfg name) invalid) _
          λ _. Ends-bind (login_tail schema) _ λ _. Ends-finish

  -- So the body fits the bound that `login_max` gives for the schema.
  whole_fits :
      (body : List ℕ)
      → All IsByte body
      → run whole_login body ≡ ok tt
      → length body ≤ 5 + 5 + 64 + extra
  whole_fits body hb e = run_fits whole_login _ body tt login-Extent login-Ends hb e

known_only : (r : Result Schema) (s : Schema) → Base.◌>>=◌ r known ≡ ok s → known s ≡ ok s
known_only (err x) s h = cc
known_only (ok (other name)) s h = cc
known_only (ok legacy) s h = ground arith
known_only (ok signed) s h = ground arith
known_only (ok signed_uuid) s h = ground arith
known_only (ok optional_uuid) s h = ground arith
known_only (ok uuid) s h = ground arith
known_only (ok backend) s h = ground arith

pub login_schema-known :
    (version : ℤ) (cfg : Protocol) (s : Schema) → login_schema version cfg ≡ ok s → known s ≡ ok s
unfolding login_schema
login_schema-known version cfg s h =
    elim (Bool-cases (ltb_ℤ version cfg.min_protocol || ltb_ℤ cfg.max_protocol version)) [
      | inl out ↦ absurd (ground (arith, out, h))
      | inr within ↦ known_only _ s (rw within at h)
    ]

-- A login that is accepted has a bound, and fits it if it fits `max_frame`.
abbrev Bounded : Protocol → Schema → List ℕ → Type 0
Bounded cfg schema body = (max : ℕ) × (login_max_of cfg schema ≡ ok max) × (length body ≤ max)

fits_schema :
    (cfg : Protocol) (schema : Schema) (body : List ℕ)
    → All IsByte body
    → known schema ≡ ok schema
    → run (do id ← int; reject_if (not (eqb_ℤ id (pos 0))) invalid; login_rest cfg schema) body
      ≡ ok tt
    → length body ≤ cfg.max_frame
    → Bounded cfg schema body
fits_schema cfg legacy body hb hk e hf = (
  min cfg.max_frame (5 + 5 + 64 + 0),
  refl,
  omega (arith, whole_fits cfg legacy 0 refl body hb e),
)
fits_schema cfg signed body hb hk e hf = (
  min cfg.max_frame (5 + 5 + 64 + 8211),
  refl,
  omega (arith, whole_fits cfg signed 8211 refl body hb e),
)
fits_schema cfg signed_uuid body hb hk e hf = (
  min cfg.max_frame (5 + 5 + 64 + 8228),
  refl,
  omega (arith, whole_fits cfg signed_uuid 8228 refl body hb e),
)
fits_schema cfg optional_uuid body hb hk e hf = (
  min cfg.max_frame (5 + 5 + 64 + 17),
  refl,
  omega (arith, whole_fits cfg optional_uuid 17 refl body hb e),
)
fits_schema cfg uuid body hb hk e hf = (
  min cfg.max_frame (5 + 5 + 64 + 16),
  refl,
  omega (arith, whole_fits cfg uuid 16 refl body hb e),
)
fits_schema cfg backend body hb hk e hf = (cfg.max_frame, refl, hf)
fits_schema cfg (other name) body hb hk e hf = cc

-- Every login that is accepted has a bound from `login_max`, and fits it if it fits `max_frame`:
-- reading the login frame under that bound turns no good client away.
pub login_fits :
    (cfg : Protocol) (version : ℤ) (body : List ℕ)
    → All IsByte body
    → login body version cfg ≡ ok tt
    → length body ≤ cfg.max_frame
    → (max : ℕ) × (login_max version cfg ≡ ok max) × (length body ≤ max)
unfolding login login_max
login_fits cfg version body hb e hf = elim (Result-cases (login_schema version cfg)) [
  | inl (schema, p) ↦
      rw p (fits_schema cfg schema body hb (login_schema-known version cfg schema p) (rw p at e) hf)
  | inr (x, p) ↦ absurd (err-ne-ok x (rw p at e))
]
