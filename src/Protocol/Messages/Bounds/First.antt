-- ===== src/Protocol/Messages/Bounds/First.antt =====
-- gate/src/protocol.rs: `handshake_max` covers every handshake that `handshake` accepts.
use xddp.Prelude.{ℕ, ◌+◌, ◌≤◌, ◌≡◌, List, not, ◌&&◌, length, All, arith}
use xddp.Prelude.Int.{ℤ, pos, eqb_ℤ, ltb_ℤ}
use xddp.Config.Protocol.{Protocol}
use xddp.Protocol.Base.{IsByte, ok, invalid, unsupported}
use xddp.Protocol.Cursor.{Parser, ◌>>=◌, ◌>>◌, return, reject_if, int, bytes, string, finish}
use xddp.Protocol.Cursor.Extent.{
  Extent, Extent-bind, Extent-le, Extent-reject_if, Extent-int, Extent-bytes, Extent-string, Ends,
  Ends-bind, Ends-finish, Ends-return,
}
use xddp.Protocol.Messages.{
  Handshake, handshake_body, bad_host, bad_port, be_u16, handshake, handshake_max,
}
use xddp.Protocol.Messages.Bounds.{run_fits, Extent-check, Extent-end}

-- The last steps of the handshake: the state, its checks and the end of the body.
abbrev state_body : ℤ → Parser Handshake
state_body version = do
  state ← int
  reject_if (not (eqb_ℤ state (pos 1)) && not (eqb_ℤ state (pos 2))) invalid
  reject_if (eqb_ℤ state (pos 2) && ltb_ℤ version (pos 0)) unsupported
  finish
  return (record { version = version; state = state })

state-Extent : (version : ℤ) → Extent (state_body version) 5
state-Extent version = Extent-bind int _ 5 0 Extent-int λ state.
    Extent-check (not (eqb_ℤ state (pos 1)) && not (eqb_ℤ state (pos 2))) _ 0 (
      Extent-bind (reject_if (eqb_ℤ state (pos 2) && ltb_ℤ version (pos 0)) unsupported) _ 0 0
        (Extent-reject_if (eqb_ℤ state (pos 2) && ltb_ℤ version (pos 0)) unsupported)
        (λ _. Extent-end (record { version = version; state = state })))

state-Ends : (version : ℤ) → Ends (state_body version)
state-Ends version = Ends-bind int _ λ state.
    Ends-bind (reject_if (not (eqb_ℤ state (pos 1)) && not (eqb_ℤ state (pos 2))) invalid) _ λ _.
      Ends-bind (reject_if (eqb_ℤ state (pos 2) && ltb_ℤ version (pos 0)) unsupported) _
        λ _. Ends-return finish (record { version = version; state = state }) Ends-finish

module _ (cfg : Protocol) where
  handshake-Extent : Extent (handshake_body cfg) (5 + 5 + 5 + cfg.max_host_bytes + 2 + 5)
  unfolding handshake_body
  handshake-Extent = Extent-le _ (5 + (5 + (5 + cfg.max_host_bytes + (2 + 5)))) _ (omega arith) (
      Extent-bind int _ 5 (5 + (5 + cfg.max_host_bytes + (2 + 5))) Extent-int λ id.
        Extent-check (not (eqb_ℤ id (pos 0))) _ (5 + (5 + cfg.max_host_bytes + (2 + 5))) (
          Extent-bind int _ 5 (5 + cfg.max_host_bytes + (2 + 5)) Extent-int λ version.
            Extent-bind (string cfg.max_host_bytes) _ (5 + cfg.max_host_bytes) (2 + 5)
              (Extent-string cfg.max_host_bytes)
              λ host. Extent-check (bad_host cfg host) _ (2 + 5) (
                Extent-bind (bytes 2) _ 2 5 (Extent-bytes 2)
                  λ b. Extent-check (bad_port cfg (be_u16 b)) _ 5 (state-Extent version))))

  handshake-Ends : Ends (handshake_body cfg)
  unfolding handshake_body
  handshake-Ends = Ends-bind int _ λ id.
      Ends-bind (reject_if (not (eqb_ℤ id (pos 0))) invalid) _ λ _. Ends-bind int _ λ version.
        Ends-bind (string cfg.max_host_bytes) _ λ host.
          Ends-bind (reject_if (bad_host cfg host) invalid) _ λ _.
            Ends-bind (bytes 2) _
              λ b. Ends-bind (reject_if (bad_port cfg (be_u16 b)) invalid) _ λ _. state-Ends version

-- Every handshake that is accepted and fits `max_frame` fits `handshake_max`: the tighter bound of
-- the first frame turns no good client away.
pub handshake_fits :
    (cfg : Protocol) (body : List ℕ) (h : Handshake)
    → All IsByte body
    → handshake body cfg ≡ ok h
    → length body ≤ cfg.max_frame
    → length body ≤ handshake_max cfg
unfolding handshake handshake_max
handshake_fits cfg body h hb e hf =
    omega (
      arith,
      run_fits (handshake_body cfg) _ body h (handshake-Extent cfg) (handshake-Ends cfg) hb e,
    )
