-- ===== src/Protocol/Examples.antt =====
-- gate/src/protocol.rs on concrete data: tests, and instances of the theorems.
use xddp.Prelude.{
  ℕ, ◌≤◌, ◌≡◌, refl, List, [], ◌∷◌, ◌++◌, none, some, true, false, All, length, drop, ltb, arith,
}
use native.Mathlib.Decide.{dec_lt}
use xddp.Prelude.Int.{pos, negsuc}
use xddp.Config.Protocol.{Protocol, legacy}
use xddp.Protocol.Base.{ok, IsByte}
use xddp.Protocol.Utf8.{from_utf8, all}
use xddp.Protocol.Cursor.{new, int, bytes, blob, string, finish}
use xddp.Protocol.Varint.{varint, put_varint}
use xddp.Protocol.Varint.RoundTrip.{varint-put_varint, varint_prefix}
use xddp.Protocol.Messages.{
  handshake, handshake_max, login, login_schema, login_max, status_request, ping, status_handshake,
  bad_host, bad_port,
}
use xddp.Protocol.Messages.Bounds.First.{handshake_fits}
use xddp.Protocol.Messages.Bounds.Login.{login_fits}
use xddp.Protocol.Messages.RoundTrip.{status_handshake_accepted}
use xddp.Protocol.Reader.{got, Conn, Limits, Frame, read_frame}
use xddp.Protocol.Reader.Frames.{Delivered, read_frame-Delivered}

bytes_ok : (xs : List ℕ) → all (λ b. ltb b 256) xs ≡ true → All IsByte xs
bytes_ok [] h = tt
bytes_ok (b ∷ bs) h = (ground (arith, h), bytes_ok bs (ground (arith, h)))

-- Numbers.
abbrev two_groups : List ℕ
two_groups = 0x80 ∷ 0x01 ∷ []

two_groups_read : varint two_groups ≡ ok (some (pos 128, 2))
unfolding varint
two_groups_read = refl

varint-put_varint_example :
    varint (put_varint (negsuc 4) [] ++ 7 ∷ [])
    ≡ ok (some (negsuc 4, length (put_varint (negsuc 4) [])))
varint-put_varint_example = varint-put_varint (negsuc 4) (7 ∷ []) (omega arith)

cut_short : put_varint (pos 300) [] ≡ (0xac ∷ []) ++ 0x02 ∷ []
unfolding put_varint dec_lt
cut_short = refl

varint_prefix_example : varint (0xac ∷ []) ≡ ok none
varint_prefix_example = varint_prefix (pos 300) 0x02 (0xac ∷ []) [] cut_short

-- Messages.
abbrev cfg : Protocol
cfg = record {
  min_protocol = pos 4;
  max_protocol = pos 0x7fffffff;
  max_frame = 8900;
  max_initial_bytes = 20000;
  max_host_bytes = 255;
  allow_host_suffix = true;
  allowed_hosts = [];
  allowed_ports = [];
  strict_username = true;
  login_schemas = [];
  future_login_schema = legacy;
}

abbrev local : List ℕ
local = b'm' ∷ b'c' ∷ []

abbrev first_body : List ℕ
first_body = 0 ∷ 47 ∷ 2 ∷ b'm' ∷ b'c' ∷ 0x63 ∷ 0xdd ∷ 2 ∷ []

first_accepted : handshake first_body cfg ≡ ok (record { version = pos 47; state = pos 2 })
unfolding handshake from_utf8 new int bytes blob string finish varint
first_accepted = refl

handshake_fits_example : length first_body ≤ handshake_max cfg
handshake_fits_example =
    handshake_fits cfg first_body (record { version = pos 47; state = pos 2 })
      (bytes_ok first_body refl) first_accepted (omega arith)

abbrev login_body : List ℕ
login_body = 0 ∷ 2 ∷ b'm' ∷ b'c' ∷ []

login_accepted : login login_body (pos 47) cfg ≡ ok tt
unfolding login login_schema from_utf8 new int bytes blob string finish varint
login_accepted = refl

login_fits_example : (max : ℕ) × (login_max (pos 47) cfg ≡ ok max) × (length login_body ≤ max)
login_fits_example =
    login_fits cfg (pos 47) login_body (bytes_ok login_body refl) login_accepted (omega arith)

abbrev request : List ℕ
request = 0 ∷ []

request_accepted : status_request request ≡ ok tt
unfolding status_request new int finish varint
request_accepted = refl

abbrev ping_message : List ℕ
ping_message = 1 ∷ 8 ∷ 7 ∷ 6 ∷ 5 ∷ 4 ∷ 3 ∷ 2 ∷ 1 ∷ []

ping_accepted : ping ping_message ≡ ok tt
unfolding ping new int bytes finish varint
ping_accepted = refl

local_known : from_utf8 local ≡ some local
unfolding from_utf8
local_known = refl

local_good : bad_host cfg (record { bytes = local; chars = local }) ≡ false
unfolding bad_host
local_good = refl

port_good : bad_port cfg 25565 ≡ false
unfolding bad_port
port_good = refl

status_handshake_accepted_example :
    (offset : ℕ) × (varint (status_handshake local 25565 (pos 47))
      ≡ ok (some (pos (length (drop offset (status_handshake local 25565 (pos 47)))), offset)))
    × (handshake (drop offset (status_handshake local 25565 (pos 47))) cfg
        ≡ ok (record { version = pos 47; state = pos 1 }))
status_handshake_accepted_example =
    status_handshake_accepted cfg local local 25565 (pos 47) local_known (omega arith) (omega arith)
      (omega arith) (omega arith) local_good port_good

-- Frames: one arrives in two parts, with a byte of the next one.
abbrev limits : Limits
limits = record { max_len = 100; absolute = 1000; progress = 100; first_progress = 200 }

abbrev conn : Conn
conn = record {
  clock = 10;
  arrivals = got 5 (3 ∷ 7 ∷ []) ∷ got 8 (8 ∷ 9 ∷ 1 ∷ []) ∷ [];
  remaining = 50;
}

abbrev conn_after : Conn
conn_after = record { clock = 10; arrivals = got 8 (1 ∷ []) ∷ []; remaining = 46 }

abbrev three : Frame
three = record { wire = 3 ∷ 7 ∷ 8 ∷ 9 ∷ []; body_offset = 1 }

three_read : read_frame limits conn ≡ (ok three, conn_after)
unfolding read_frame varint
three_read = refl

read_frame-Delivered_example : Delivered limits conn three conn_after
read_frame-Delivered_example = read_frame-Delivered limits conn three conn_after three_read
