-- ===== src/Config/Protocol.antt =====
-- gate/src/config.rs: `Protocol`. A schema's string is a value with a constructor for each of the
-- strings that the program compares it with, and `other` for the rest ("disabled" among them).
use xddp.Prelude.{ℕ, List, Bool}
use xddp.Prelude.Int.{ℤ}
use Prim.Native.String.{String}

pub data Schema : Type 0 where
  legacy signed signed_uuid optional_uuid uuid backend : Schema
  other : String → Schema

pub record Protocol : Type 0 where
  pub min_protocol : ℤ
  pub max_protocol : ℤ
  pub max_frame : ℕ
  pub max_initial_bytes : ℕ
  pub max_host_bytes : ℕ
  pub allow_host_suffix : Bool
  -- Each host is the list of its chars.
  pub allowed_hosts : List (List ℕ)
  pub allowed_ports : List ℕ
  pub strict_username : Bool
  -- A sorted map, as its pairs.
  pub login_schemas : List (ℤ × Schema)
  pub future_login_schema : Schema
