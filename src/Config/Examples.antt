-- ===== src/Config/Examples.antt =====
-- gate/src/config.rs on concrete data: instances of the theorems.
use xddp.Prelude.{ℕ, ◌*◌, ◌≤◌, ◌≡◌, refl, [], ◌∷◌, none, some, Bool, true, false, length, arith}
use xddp.Prelude.Int.{pos, negsuc}
use xddp.Prelude.Whole.{whole}
use xddp.Config.Settings.{valid}
use xddp.Config.Protocol.{uuid, legacy}
use xddp.Config.Validate.{
  one_of, bad_backend, bad_upload, bad_limits, bad_rates, rises, bad_multipliers, bad_phases,
  bad_relay,
}
use xddp.Config.File.{
  Config, worker_bounds, resource_limits, first_of, bad_protocol, bad_cache, validate,
}
use xddp.Config.Promises.{Slots, validate-Slots, validate-get}
use xddp.Limiter.Address.{v4, ip_eq}
use xddp.Limiter.Examples.{cfg}
use xddp.Runtime.Examples.{Place, lan, places}
use xddp.Cache.{wire_size, varint_size, new_prepared, valid_status}
use xddp.Cache.Status.{StatusCache, get, new_cache, refreshed}
use xddp.Cache.Examples.{Doc, docs, fallback}
use native.Mathlib.Decide.{dec_lt, dec_le}

abbrev finite : ℕ → Bool
finite x = true

abbrev pub config : Config ℕ Place Doc
config = record {
  listen = record { ip = v4 0; port = 25565; flowinfo = 0; scope_id = 0 };
  backend = record { ip = v4 0x0a000002; port = 25566; flowinfo = 0; scope_id = 0 };
  metrics = record { ip = v4 0x7f000001; port = 9100; flowinfo = 0; scope_id = 0 };
  proxy_v2 = true;
  incoming_proxy_v2 = record { enabled = true; trusted_proxies = lan ∷ [] };
  allow_backend_identity_loss = false;
  ipv6 = false;
  observe = true;
  runtime_file = [];
  workers = 2;
  relay_buffer = 16384;
  upload = record { bytes_per_second = 0; burst_bytes = 0; enforce = false };
  backend_protection = record {
    max_connecting = 8;
    failure_threshold = 0;
    cooldown_ms = 0;
    attempts = record { per_second = 10; burst = 10 };
  };
  limits = record cfg { total_sockets = 200 };
  timeouts = record {
    first_progress_ms = 1000;
    progress_ms = 1000;
    handshake_ms = 1000;
    login_ms = 1000;
    status_ms = 1000;
    backend_ms = 1000;
    shutdown_seconds = 10;
    relay_stall_ms = 0;
    half_close_ms = 0;
    client_idle_ms = 0;
  };
  protocol = record {
    min_protocol = pos 757;
    max_protocol = pos 776;
    max_frame = 1024;
    max_initial_bytes = 4096;
    max_host_bytes = 255;
    allow_host_suffix = false;
    allowed_hosts = [];
    allowed_ports = 25565 ∷ [];
    strict_username = true;
    login_schemas = (pos 47, legacy) ∷ [];
    future_login_schema = uuid;
  };
  cache = record {
    host = 97 ∷ [];
    port = 25565;
    protocol = negsuc 0;
    ttl_seconds = 5;
    max_response_bytes = 256;
    fallback = fallback;
  };
}

accepted : validate whole finite places docs config ≡ none
unfolding validate first_of one_of valid bad_backend bad_upload bad_limits bad_rates rises
    bad_multipliers bad_phases bad_relay bad_protocol bad_cache valid_status ip_eq new_prepared
    wire_size varint_size dec_le dec_lt
accepted = refl

-- The first test that fails gives the message: the sum of the kinds is over the total, and before it
-- there are no workers.
refused :
    (validate whole finite places docs (record config { limits = cfg }) ≡ some resource_limits)
    × (validate whole finite places docs (record config { limits = cfg; workers = 0 })
        ≡ some worker_bounds)
unfolding validate first_of one_of valid bad_backend bad_upload bad_limits ip_eq bad_relay
refused = (refl, refl)

validate-Slots_example : Slots config.limits config.backend_protection
validate-Slots_example = validate-Slots whole finite places docs config accepted

validate-get_example :
    (cache : StatusCache) × (new_cache docs fallback 256 5 ≡ some cache)
    × (length
          (get
            (refreshed docs 256 (1000 * 1000000) cache (λ i. 0) ((false, none, 7) ∷ [])).0
            (refreshed docs 256 (1000 * 1000000) cache (λ i. 0) ((false, none, 7) ∷ [])).1
            (pos 47)
            9).0
        ≤ 256)
validate-get_example =
    validate-get whole finite places docs config (λ i. 0) ((false, none, 7) ∷ []) (pos 47) 9
      accepted (omega arith)
