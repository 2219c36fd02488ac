-- ===== src/Protocol/Messages/Bounds.antt =====
-- gate/src/protocol.rs: the length bounds cover every message that its parser accepts.
pub mod First
pub mod Login
pub mod Status
use xddp.Prelude.{
  ℕ, ◌+◌, ◌≤◌, ◌≡◌, refl, min, List, Bool, true, false, not, ◌&&◌, ◌||◌, ◌==◌, Option, none, some,
  length, All, inl, inr, Bool-cases, arith,
}
use xddp.Prelude.Int.{ℤ, pos, eqb_ℤ, ltb_ℤ}
use xddp.Config.Protocol.{
  Protocol, Schema, legacy, signed, signed_uuid, optional_uuid, uuid, backend, other,
}
use xddp.Protocol.Base.{IsByte, Result, ok, err, invalid, unsupported, Result-cases, err-ne-ok}
use xddp.Protocol.Base
use xddp.Protocol.Utf8.{Str}
use xddp.Protocol.Cursor.{
  Cursor, Parser, new, ◌>>=◌, ◌>>◌, return, reject_if, int, bytes, boolean, blob, string, finish,
}
use xddp.Protocol.Cursor.Extent.{
  Extent, Extent-bind, Extent-le, Extent-return, Extent-reject_if, Extent-int, Extent-bytes,
  Extent-boolean, Extent-blob, Extent-string, Extent-finish, Ends, Ends-bind, Ends-finish,
  Ends-return, Ends-length,
}
use xddp.Protocol.Messages.{
  Handshake, run, handshake_body, bad_host, bad_port, be_u16, handshake, handshake_max,
  login_schema, known, login_extra, login_max_of, login_max, bad_name, when, signature, optional_id,
  login_tail, login_body, login_rest, login, status_request, ping,
}

pub run_fits :
    {A : Type 0} (m : Parser A) (k : ℕ) (body : List ℕ) (a : A)
    → Extent m k
    → Ends m
    → All IsByte body
    → run m body ≡ ok a
    → length body ≤ k
run_fits {A} m k body a hm he hb h = go (m (new body)) refl h
  where
    go :
        (r : Result (A × Cursor))
        → m (new body) ≡ r
        → elim r [ ok (a, c) ↦ ok a | err e ↦ err e ] ≡ ok a
        → length body ≤ k
    go (ok (b, c)) e p = Ends-length m k body c b hm he hb e
    go (err x) e p = cc

-- A check between two parsers takes nothing.
pub Extent-check :
    {A : Type 0} (b : Bool) (m : Parser A) (k : ℕ)
    → Extent m k
    → Extent (reject_if b invalid >> m) k
Extent-check b m k h =
    Extent-le _ (0 + k) k (omega arith)
      (Extent-bind (reject_if b invalid) _ 0 k (Extent-reject_if b invalid) (λ _. h))

pub Extent-end : {A : Type 0} (a : A) → Extent (finish >> return a) 0
Extent-end a = Extent-bind finish _ 0 0 Extent-finish (λ _. Extent-return a)
