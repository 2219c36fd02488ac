-- ===== src/Config/Limits.antt =====
-- gate/src/config.rs: `Rate`, `Rates` and `Limits`, over the type of f64 values.
use xddp.Prelude.{ℕ, List, Bool}

pub record Rate (F : Type 0) : Type 0 where
  pub per_second : F
  pub burst : F

-- A value for each event: the four rates, and in the limiter the four buckets in the order of
-- `Rates::list`.
pub record Four (A : Type 0) : Type 0 where
  pub connect : A
  pub handshake : A
  pub status : A
  pub login : A

abbrev pub Rates : Type 0 → Type 0
Rates F = Four (Rate F)

abbrev pub map_four : {A B : Type 0} → (A → B) → Four A → Four B
map_four f r = record {
  connect = f r.connect;
  handshake = f r.handshake;
  status = f r.status;
  login = f r.login;
}

pub record Limits (F : Type 0) : Type 0 where
  pub total_sockets : ℕ
  pub prelogin : ℕ
  pub status_connections : ℕ
  pub status_ip : ℕ
  pub separate_status_budget : Bool
  pub preserve_burst : Bool
  pub admitted : ℕ
  pub backend : ℕ
  pub connections_ip : ℕ
  pub connections_prefix : ℕ
  pub prelogin_ip : ℕ
  pub prelogin_prefix : ℕ
  pub ip_entries : ℕ
  pub prefix_entries : ℕ
  pub idle_entry_seconds : ℕ
  pub ipv4_prefix : ℕ
  pub ipv6_prefix : ℕ
  pub ip : Rates F
  pub prefix : Rates F
  pub global : Rates F
  pub mode_multipliers : List F
  pub churn_score_threshold : F
  pub churn_prefix_score_threshold : F
  pub churn_half_life_seconds : ℕ
  pub churn_window_seconds : ℕ
  pub penalty_seconds : ℕ
