-- ===== src/Config/File.antt =====
-- gate/src/config.rs: `Cache` and `Config`, and the tests of `Config::validate` in their order. The
-- networks of ipnet, JSON, f64 and its `is_finite` are parameters; a string is its bytes.
use xddp.Prelude.{
  ℕ, ◌+◌, ◌/◌, ◌^◌, List, [], ◌∷◌, Option, none, some, Bool, true, false, not, ◌&&◌, ◌||◌, ltb,
  ◌==◌, if◌then◌else◌, length,
}
use xddp.Prelude.Int.{ℤ, pos, ltb_ℤ}
use xddp.Prelude.Float.{Float}
use xddp.Protocol.Utf8.{is_empty}
use xddp.Config.Limits.{Limits}
use xddp.Config.Settings.{Timeouts, BackendProtection, Upload}
use xddp.Config.Protocol.{
  Protocol, Schema, legacy, signed, signed_uuid, optional_uuid, uuid, backend, other,
}
use xddp.Config.Validate.{
  any_of, one_of, differ, bad_backend, bad_upload, bad_limits, bad_rates, bad_multipliers,
  bad_phases, bad_relay,
}
use xddp.Limiter.Address.{IpAddr, v4, v6, ip_eq}
use Prim.Native.String.{compare}
use Prim.Native.Nat.{lt, eq, gt}
use xddp.Net.{Shape, v4_net, v6_net, IpNets}
use xddp.IncomingProxy.{IncomingProxyV2}
use xddp.Cache.{Json, valid_status}

pub record Cache (V : Type 0) : Type 0 where
  pub host : List ℕ
  pub port : ℕ
  pub protocol : ℤ
  pub ttl_seconds : ℕ
  pub max_response_bytes : ℕ
  pub fallback : V

-- A `SocketAddr` whose `==` also compares the flow information and the scope of an IPv6 address; both
-- are 0 for IPv4.
pub record Endpoint : Type 0 where
  pub ip : IpAddr
  pub port : ℕ
  pub flowinfo : ℕ
  pub scope_id : ℕ

pub record Config (F N V : Type 0) : Type 0 where
  pub listen : Endpoint
  pub backend : Endpoint
  pub metrics : Endpoint
  pub proxy_v2 : Bool
  pub incoming_proxy_v2 : IncomingProxyV2 N
  pub allow_backend_identity_loss : Bool
  pub ipv6 : Bool
  pub observe : Bool
  pub runtime_file : List ℕ
  pub workers : ℕ
  pub relay_buffer : ℕ
  pub upload : Upload
  pub backend_protection : BackendProtection F
  pub limits : Limits F
  pub timeouts : Timeouts
  pub protocol : Protocol
  pub cache : Cache V

-- The messages of the errors, in the order of the tests.
pub data Complaint : Type 0 where
  backend_bounds relay_deadlines upload_bounds worker_bounds metrics_address zero_port no_ipv6 :
      Complaint
  untrusted_proxies identity_loss address_families resource_limits rate_bounds multipliers :
      Complaint
  protocol_bounds phase_deadlines cache_bounds : Complaint

-- The early returns: the complaint of the first test that succeeds.
unfoldable pub first_of : List (Bool × Complaint) → Option Complaint
first_of [] = none
first_of ((bad, complaint) ∷ rest) = if bad then some complaint else first_of rest

-- `!(low..=high).contains(&n)`
abbrev pub outside : ℕ → ℕ → ℕ → Bool
outside low high n = ltb n low || ltb high n

abbrev pub is_ipv6 : IpAddr → Bool
is_ipv6 (v4 a) = false
is_ipv6 (v6 a) = true

abbrev pub is_loopback : IpAddr → Bool
is_loopback (v4 a) = a / 2 ^ 24 == 127
is_loopback (v6 a) = a == 1

abbrev pub same_socket : Endpoint → Endpoint → Bool
same_socket a b =
    ip_eq a.ip b.ip && a.port == b.port && a.flowinfo == b.flowinfo && a.scope_id == b.scope_id

-- `net.prefix_len() == 0 || (net.addr().is_ipv6() && !self.ipv6)`
abbrev pub too_wide : Bool → Shape → Bool
too_wide ipv6 (v4_net bits network) = bits == 0
too_wide ipv6 (v6_net bits network) = bits == 0 || not ipv6

-- A schema for one version, and one for the versions after the table.
abbrev pub known_schema : Schema → Bool
known_schema (other s) = false
known_schema legacy = true
known_schema signed = true
known_schema signed_uuid = true
known_schema optional_uuid = true
known_schema uuid = true
known_schema backend = true

abbrev pub is_disabled : Schema → Bool
is_disabled (other s) = elim (compare s "disabled") [ eq ↦ true | lt ↦ false | gt ↦ false ]
is_disabled legacy = false
is_disabled signed = false
is_disabled signed_uuid = false
is_disabled optional_uuid = false
is_disabled uuid = false
is_disabled backend = false

unfoldable pub bad_protocol : Protocol → Bool
bad_protocol p = one_of (
    outside 64 65536 p.max_frame
    ∷ ltb p.max_initial_bytes (p.max_frame + 5)
    ∷ ltb 131072 p.max_initial_bytes
    ∷ outside 1 4096 p.max_host_bytes
    ∷ ltb p.max_frame p.max_host_bytes
    ∷ any_of (λ port. port == 0) p.allowed_ports
    ∷ ltb_ℤ p.min_protocol (pos 0)
    ∷ ltb_ℤ p.max_protocol p.min_protocol
    ∷ ltb 256 (length p.allowed_hosts)
    ∷ ltb 1024 (length p.login_schemas)
    ∷ any_of (λ s. not (known_schema s.1)) p.login_schemas
    ∷ not (known_schema p.future_login_schema || is_disabled p.future_login_schema)
    ∷ [])

module _ (json : Json) where
  abbrev pub is_object : Option (List (List ℕ × json.Value)) → Bool
  is_object none = false
  is_object (some entries) = true

  unfoldable pub bad_cache : Timeouts → Cache json.Value → Bool
  bad_cache t c = one_of (
      ltb 3600 t.shutdown_seconds
      ∷ (c.ttl_seconds == 0)
      ∷ ltb 300 c.ttl_seconds
      ∷ outside 256 65536 c.max_response_bytes
      ∷ is_empty c.host
      ∷ ltb 255 (length c.host)
      ∷ (c.port == 0)
      ∷ not (is_object (json.as_object c.fallback))
      ∷ not (valid_status json c.fallback c.max_response_bytes)
      ∷ [])

module _ (fl : Float) (is_finite : fl.F64 → Bool) (nets : IpNets) (json : Json) where
  open nets use {IpNet, shape}

  abbrev pub bad_trust : Bool → IncomingProxyV2 IpNet → Bool
  bad_trust ipv6 p =
      p.enabled
      && (is_empty p.trusted_proxies
          || ltb 512 (length p.trusted_proxies)
          || any_of (λ n. too_wide ipv6 (shape n)) p.trusted_proxies)

  unfoldable pub validate : Config fl.F64 IpNet json.Value → Option Complaint
  validate c = first_of (
      (bad_backend fl is_finite c.backend_protection c.limits, backend_bounds)
      ∷ (bad_relay c.timeouts, relay_deadlines)
      ∷ (bad_upload c.upload, upload_bounds)
      ∷ (c.workers == 0 || ltb 64 c.workers || outside 1024 65536 c.relay_buffer, worker_bounds)
      ∷ (
        not (is_loopback c.metrics.ip)
            || same_socket c.listen c.backend
            || same_socket c.listen c.metrics,
        metrics_address,
      )
      ∷ (c.listen.port == 0 || c.backend.port == 0 || c.metrics.port == 0, zero_port)
      ∷ (not c.ipv6 && (is_ipv6 c.listen.ip || is_ipv6 c.backend.ip), no_ipv6)
      ∷ (bad_trust c.ipv6 c.incoming_proxy_v2, untrusted_proxies)
      ∷ (not c.proxy_v2 && not c.allow_backend_identity_loss, identity_loss)
      ∷ (
        c.proxy_v2 && differ (not (is_ipv6 c.listen.ip)) (not (is_ipv6 c.backend.ip)),
        address_families,
      )
      ∷ (bad_limits fl is_finite c.limits, resource_limits)
      ∷ (
        bad_rates fl is_finite c.limits.ip
            || bad_rates fl is_finite c.limits.prefix
            || bad_rates fl is_finite c.limits.global,
        rate_bounds,
      )
      ∷ (bad_multipliers fl is_finite c.limits.mode_multipliers, multipliers)
      ∷ (bad_protocol c.protocol, protocol_bounds)
      ∷ (bad_phases c.timeouts, phase_deadlines)
      ∷ (bad_cache json c.timeouts c.cache, cache_bounds)
      ∷ [])
