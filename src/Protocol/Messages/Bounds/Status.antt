-- ===== src/Protocol/Messages/Bounds/Status.antt =====
-- gate/src/protocol.rs: the lengths of a status request and of a ping.
use xddp.Prelude.{ℕ, ◌≤◌, ◌≡◌, List, not, length, All}
use xddp.Prelude.Int.{pos, eqb_ℤ}
use xddp.Protocol.Base.{IsByte, ok, invalid}
use xddp.Protocol.Cursor.{Parser, ◌>>=◌, ◌>>◌, reject_if, int, bytes, finish}
use xddp.Protocol.Cursor.Extent.{
  Extent, Extent-bind, Extent-int, Extent-bytes, Extent-finish, Ends, Ends-bind, Ends-finish,
}
use xddp.Protocol.Messages.{status_request, ping}
use xddp.Protocol.Messages.Bounds.{run_fits, Extent-check}

abbrev request_body : Parser (Unit {0})
request_body = do id ← int; reject_if (not (eqb_ℤ id (pos 0))) invalid; finish

request-Extent : Extent request_body 5
request-Extent =
    Extent-bind int _ 5 0 Extent-int λ id. Extent-check (not (eqb_ℤ id (pos 0))) _ 0 Extent-finish

request-Ends : Ends request_body
request-Ends =
    Ends-bind int _ λ id. Ends-bind (reject_if (not (eqb_ℤ id (pos 0))) invalid) _ λ _. Ends-finish

abbrev ping_body : Parser (Unit {0})
ping_body = do id ← int; reject_if (not (eqb_ℤ id (pos 1))) invalid; b ← bytes 8; finish

ping-Extent : Extent ping_body 13
ping-Extent = Extent-bind int _ 5 8 Extent-int λ id.
    Extent-check (not (eqb_ℤ id (pos 1))) _ 8
      (Extent-bind (bytes 8) _ 8 0 (Extent-bytes 8) (λ _. Extent-finish))

ping-Ends : Ends ping_body
ping-Ends = Ends-bind int _ λ id.
    Ends-bind (reject_if (not (eqb_ℤ id (pos 1))) invalid) _
      λ _. Ends-bind (bytes 8) _ λ b. Ends-finish

-- The body of a status request that is accepted has at most 5 bytes, the bound that `handle` reads
-- it with.
pub status_request_fits :
    (body : List ℕ) → All IsByte body → status_request body ≡ ok tt → length body ≤ 5
unfolding status_request
status_request_fits body hb e = run_fits request_body 5 body tt request-Extent request-Ends hb e

-- The body of a ping that is accepted has at most 13 bytes, the bound that `handle` reads it with.
pub ping_fits : (body : List ℕ) → All IsByte body → ping body ≡ ok tt → length body ≤ 13
unfolding ping
ping_fits body hb e = run_fits ping_body 13 body tt ping-Extent ping-Ends hb e
