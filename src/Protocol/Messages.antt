-- ===== src/Protocol/Messages.antt =====
-- gate/src/protocol.rs: the messages of the three phases, from `Handshake` to `status_handshake`.
pub mod Bounds
pub mod RoundTrip
use xddp.Prelude.{
  ℕ, ◌+◌, ◌%◌, ◌/◌, ◌*◌, ◌^◌, min, List, [], ◌∷◌, ◌++◌, Option, none, some, Bool, true, false, not,
  ◌&&◌, ◌||◌, ltb, leb, ◌==◌, if◌then◌else◌, length,
}
use xddp.Prelude.Int.{ℤ, pos, to_i32, leb_ℤ, ltb_ℤ, eqb_ℤ}
use xddp.Config.Protocol.{
  Protocol, Schema, legacy, signed, signed_uuid, optional_uuid, uuid, backend, other,
}
use xddp.Protocol.Base.{Error, invalid, unsupported, Result, ok, err}
use xddp.Protocol.Base
use xddp.Protocol.Varint.{put_varint, frame}
use xddp.Protocol.Utf8.{
  Str, any, all, is_empty, is_control, before_nul, eq_ignore_ascii_case, utf16_count,
  is_ascii_alphanumeric,
}
use xddp.Protocol.Cursor.{
  Cursor, Parser, new, ◌>>=◌, ◌>>◌, return, fail, reject_if, int, bytes, boolean, blob, string,
  finish,
}

pub record Handshake : Type 0 where
  pub version : ℤ
  pub state : ℤ

-- The result of a parser on a whole body.
abbrev pub run : {A : Type 0} → Parser A → List ℕ → Result A
run m body = elim (m (new body)) [ ok (a, c) ↦ ok a | err e ↦ err e ]

unfoldable pub handshake_max : Protocol → ℕ
handshake_max cfg = min cfg.max_frame (5 + 5 + 5 + cfg.max_host_bytes + 2 + 5)

-- The host is refused.
unfoldable pub bad_host : Protocol → Str → Bool
bad_host cfg host =
    let base = before_nul host.chars in
    is_empty base
    || any is_control base
    || (not cfg.allow_host_suffix && any (λ c. c == 0) host.chars)
    || (not (is_empty cfg.allowed_hosts)
        && not (any (λ h. eq_ignore_ascii_case h base) cfg.allowed_hosts))

-- `u16::from_be_bytes([b[0], b[1]])`, of the two bytes that `bytes(2)` returned.
abbrev pub be_u16 : List ℕ → ℕ
be_u16 (hi ∷ lo ∷ bs) = hi * 256 + lo
be_u16 bs = 0

unfoldable pub bad_port : Protocol → ℕ → Bool
bad_port cfg port =
    port == 0 || (not (is_empty cfg.allowed_ports) && not (any (λ p. p == port) cfg.allowed_ports))

unfoldable pub handshake_body : Protocol → Parser Handshake
handshake_body cfg = do
  id ← int
  reject_if (not (eqb_ℤ id (pos 0))) invalid
  version ← int
  host ← string cfg.max_host_bytes
  reject_if (bad_host cfg host) invalid
  b ← bytes 2
  reject_if (bad_port cfg (be_u16 b)) invalid
  state ← int
  reject_if (not (eqb_ℤ state (pos 1)) && not (eqb_ℤ state (pos 2))) invalid
  reject_if (eqb_ℤ state (pos 2) && ltb_ℤ version (pos 0)) unsupported
  finish
  return (record { version = version; state = state })

unfoldable pub handshake : List ℕ → Protocol → Result Handshake
unfolding handshake_body bad_host bad_port
handshake body cfg = run (handshake_body cfg) body

-- `cfg.login_schemas.get(&version)`
abbrev pub schema_of : ℤ → List (ℤ × Schema) → Option Schema
schema_of version [] = none
schema_of version ((v, s) ∷ rest) = if eqb_ℤ v version then some s else schema_of version rest

abbrev pub between : ℕ → ℤ → ℕ → Bool
between low version high = leb_ℤ (pos low) version && leb_ℤ version (pos high)

abbrev pub built_in : ℤ → Protocol → Result Schema
built_in version cfg =
    if between 4 version 758
    then ok legacy
    else if between 759 version 759
    then ok signed
    else if between 760 version 760
    then ok signed_uuid
    else if between 761 version 763
    then ok optional_uuid
    else if between 764 version 776
    then ok uuid
    else if between 777 version 0x7fff_ffff
    then ok cfg.future_login_schema
    else err unsupported

abbrev pub known : Schema → Result Schema
known (other name) = err unsupported
known schema = ok schema

unfoldable pub login_schema : ℤ → Protocol → Result Schema
login_schema version cfg =
    if ltb_ℤ version cfg.min_protocol || ltb_ℤ cfg.max_protocol version
    then err unsupported
    else Base.◌>>=◌
        (elim (schema_of version cfg.login_schemas) [ some s ↦ ok s | none ↦ built_in version cfg ])
        known

abbrev pub login_extra : Schema → Result ℕ
login_extra legacy = ok 0
login_extra signed = ok (1 + 8 + 5 + 4096 + 5 + 4096)
login_extra signed_uuid = ok (1 + 8 + 5 + 4096 + 5 + 4096 + 17)
login_extra optional_uuid = ok 17
login_extra uuid = ok 16
login_extra _ = err unsupported

abbrev pub login_max_of : Protocol → Schema → Result ℕ
login_max_of cfg backend = ok cfg.max_frame
login_max_of cfg schema =
    Base.◌>>=◌ (login_extra schema) (λ extra. ok (min cfg.max_frame (5 + 5 + 64 + extra)))

unfoldable pub login_max : ℤ → Protocol → Result ℕ
login_max version cfg = Base.◌>>=◌ (login_schema version cfg) (login_max_of cfg)

-- The name is refused.
unfoldable pub bad_name : Protocol → Str → Bool
bad_name cfg name =
    is_empty name.chars
    || ltb 16 (utf16_count name.chars)
    || any is_control name.chars
    || (cfg.strict_username && not (all (λ x. is_ascii_alphanumeric x || x == b'_') name.bytes))

abbrev pub when : Bool → Parser (Unit {0}) → Parser (Unit {0})
when true m = m
when false m = return tt

unfoldable pub signature : Parser (Unit {0})
signature = do
  present ← boolean
  when present (do bytes 8 >>= λ _. blob 4096 >>= λ _. blob 4096 >>= λ _. return tt)

unfoldable pub optional_id : Parser (Unit {0})
optional_id = do present ← boolean; when present (bytes 16 >>= λ _. return tt)

-- What follows the name, by schema.
abbrev pub login_tail : Schema → Parser (Unit {0})
login_tail signed = signature
login_tail signed_uuid = signature >> optional_id
login_tail optional_uuid = optional_id
login_tail uuid = bytes 16 >>= λ _. return tt
login_tail _ = return tt

unfoldable pub login_body : Protocol → Schema → Parser (Unit {0})
login_body cfg schema = do
  name ← string 64
  reject_if (bad_name cfg name) invalid
  login_tail schema
  finish

abbrev pub login_rest : Protocol → Schema → Parser (Unit {0})
login_rest cfg backend = return tt
login_rest cfg schema = login_body cfg schema

unfoldable pub login : List ℕ → ℤ → Protocol → Result (Unit {0})
unfolding login_body signature optional_id bad_name
login body version cfg = Base.◌>>=◌ (login_schema version cfg) λ schema.
    run (do id ← int; reject_if (not (eqb_ℤ id (pos 0))) invalid; login_rest cfg schema) body

unfoldable pub status_request : List ℕ → Result (Unit {0})
status_request body = run (do id ← int; reject_if (not (eqb_ℤ id (pos 0))) invalid; finish) body

unfoldable pub ping : List ℕ → Result (Unit {0})
ping body = run (do id ← int; reject_if (not (eqb_ℤ id (pos 1))) invalid; b ← bytes 8; finish) body

-- The handshake that the cache sends to the backend: `port` is a u16.
unfoldable pub status_handshake : List ℕ → ℕ → ℤ → List ℕ
status_handshake host port version =
    let b = put_varint (to_i32 (length host % 2 ^ 32)) (put_varint version (0 ∷ [])) in
    frame (b ++ host ++ (port / 256) ∷ (port % 256) ∷ [] ++ 1 ∷ [])
