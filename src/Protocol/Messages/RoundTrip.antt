-- ===== src/Protocol/Messages/RoundTrip.antt =====
-- gate/src/protocol.rs: the gate's own status handshake passes its handshake parser.
use xddp.Prelude.{
  ℕ, ◌/◌, ◌%◌, ◌^◌, ◌≤◌, ◌<◌, ◌≡◌, refl, sym, subst, List, [], ◌∷◌, ◌++◌, some, false, length,
  length-append, drop, drop-append_left, arith,
}
use xddp.Prelude.Int.{ℤ, pos, IsI32, to_i32}
use xddp.Config.Protocol.{Protocol}
use xddp.Protocol.Base.{ok, err}
use xddp.Protocol.Varint.{varint, put_varint, frame}
use xddp.Protocol.Varint.Encode.{put_varint-append, put_varint_small, length-put_varint}
use xddp.Protocol.Varint.RoundTrip.{varint-put_varint}
use xddp.Protocol.Utf8.{from_utf8}
use xddp.Protocol.Cursor.{Cursor, new, int, bytes, string, Parser}
use xddp.Protocol.Cursor.Reads.{
  new-At, int-At, bytes-At, string-At, finish-At, Runs, Runs-bind, Runs-check, Runs-end,
}
use xddp.Protocol.Messages.{
  run, handshake, handshake_body, bad_host, bad_port, be_u16, status_handshake,
}
use mathlib.Core.List.{append_assoc}

run-Runs :
    {A : Type 0} (m : Parser A) (body : List ℕ) {c : Cursor} (a : A)
    → Runs m (new body) a c
    → run m body ≡ ok a
run-Runs m body {c} a h =
    subst (λ r. elim r [ ok (x, c') ↦ ok x | err e ↦ err e ] ≡ ok a) (sym h.runs) refl

module _ (cfg : Protocol) (host chars : List ℕ) (port : ℕ) (version : ℤ)
    (known : from_utf8 host ≡ some chars) (short : length host ≤ cfg.max_host_bytes)
    (bound : cfg.max_host_bytes ≤ 4096) (word : IsI32 version) (u16 : port < 2 ^ 16)
    (good_host : bad_host cfg (record { bytes = host; chars = chars }) ≡ false)
    (good_port : bad_port cfg port ≡ false) where
  abbrev port_bytes : List ℕ
  port_bytes = (port / 256) ∷ (port % 256) ∷ []

  -- The body, part by part.
  abbrev parts : List ℕ
  parts =
      put_varint (pos 0) []
      ++ (put_varint version []
          ++ (put_varint (pos (length host)) []
              ++ (host ++ (port_bytes ++ (put_varint (pos 1) [] ++ [])))))

  port_back : be_u16 port_bytes ≡ port
  port_back = omega arith

  parts_accepted : handshake parts cfg ≡ ok (record { version = version; state = pos 1 })
  unfolding handshake handshake_body
  parts_accepted =
      let (c₁, p₁, a₁) = int-At (new parts) (pos 0) _ (omega arith) (new-At parts) in
      let (c₂, p₂, a₂) = int-At c₁ version _ word a₁ in
      let (c₃, p₃, a₃) =
        string-At c₂ cfg.max_host_bytes host chars _ short (omega arith) known a₂ in
      let (c₄, p₄, a₄) = bytes-At c₃ port_bytes _ a₃ in
      let (c₅, p₅, a₅) = int-At c₄ (pos 1) [] (omega arith) a₄ in
      let whole : Runs (handshake_body cfg) (new parts)
          (record { version = version; state = pos 1 }) c₅ =
        Runs-bind int _ (pos 0) p₁ (
          Runs-bind int _ version p₂ (
            Runs-bind (string cfg.max_host_bytes) _ _ p₃ (
              Runs-check _ _ _ good_host (
                Runs-bind (bytes 2) _ port_bytes p₄ (
                  Runs-check _ _ _ (rw port_back good_port) (
                    Runs-bind int _ (pos 1) p₅ (
                      Runs-end (record { version = version; state = pos 1 })
                        (finish-At c₅ a₅)))))))) in
      run-Runs (handshake_body cfg) parts _ whole

  -- The body as the source builds it.
  abbrev body : List ℕ
  body =
      put_varint (to_i32 (length host % 2 ^ 32)) (put_varint version (0 ∷ []))
      ++ host
      ++ port_bytes
      ++ 1 ∷ []

  body-parts : body ≡ parts
  body-parts =
      let n : to_i32 (length host % 2 ^ 32) ≡ pos (length host) = ground arith in
      let zero_byte = put_varint_small 0 (omega arith) in
      let one_byte = put_varint_small 1 (omega arith) in
      rw
        (
          n,
          put_varint-append (pos (length host)) (put_varint version (0 ∷ [])),
          put_varint-append version (0 ∷ []),
          zero_byte,
          one_byte,
        )
        (simp append_assoc)

  length-body : length body < 2 ^ 31
  length-body = rw body-parts (
      simp length-append (
        omega (
          arith,
          length-put_varint version,
          length-put_varint (pos (length host)),
          length-put_varint (pos 0),
          length-put_varint (pos 1),
        )))

  -- The status handshake that the cache sends frames its body exactly, and the gate's own parser
  -- accepts the body: for a host that the configuration admits, a version and a port.
  pub status_handshake_accepted :
      (offset : ℕ) × (varint (status_handshake host port version)
        ≡ ok (some (pos (length (drop offset (status_handshake host port version))), offset)))
      × (handshake (drop offset (status_handshake host port version)) cfg
          ≡ ok (record { version = version; state = pos 1 }))
  unfolding status_handshake frame
  status_handshake_accepted =
      let n : to_i32 (length body % 2 ^ 32) ≡ pos (length body) = ground (arith, length-body) in
      let size = put_varint (pos (length body)) [] in
      (
        length size,
        rw (n, drop-append_left size body) (varint-put_varint (pos (length body)) body length-body),
        rw (n, drop-append_left size body, body-parts) parts_accepted,
      )
