-- ===== src/Shared/Metrics.antt =====
-- shared/utils.py: `MetricsState`, the counters of one service. Clocks are arguments.
use cloud_microservices.Prelude.{ℕ, ◌+◌, String, Bool, eqb, if◌then◌else◌}
use cloud_microservices.Floats.{Floats}

pub record MetricsState (F : Type 0) : Type 0 where
  pub service : String
  pub started_at : F
  pub request_count : ℕ
  pub error_count : ℕ
  pub total_latency_ms : F

-- the dictionary of `snapshot`
pub record Snapshot (F : Type 0) : Type 0 where
  pub service : String
  pub request_count : ℕ
  pub error_count : ℕ
  pub avg_latency_ms : F
  pub uptime_seconds : F

module _ (fl : Floats) where
  open fl use {Float}

  unfoldable pub new_metrics : String → Float → MetricsState Float
  new_metrics service now = record {
    service = service;
    started_at = now;
    request_count = 0;
    error_count = 0;
    total_latency_ms = fl.zero;
  }

  -- `record`
  unfoldable pub record_request : Float → Bool → MetricsState Float → MetricsState Float
  record_request duration_ms is_error m = record m {
    request_count = m.request_count + 1;
    total_latency_ms = fl.add m.total_latency_ms duration_ms;
    error_count = if is_error then m.error_count + 1 else m.error_count;
  }

  unfoldable pub avg_latency_ms : MetricsState Float → Float
  avg_latency_ms m =
      if eqb m.request_count 0 then fl.zero else fl.div m.total_latency_ms (fl.of_ℕ m.request_count)

  unfoldable pub uptime_seconds : Float → MetricsState Float → Float
  uptime_seconds now m = fl.sub now m.started_at

  -- `snapshot`, at the time `now` of the monotonic clock
  unfoldable pub snapshot : Float → MetricsState Float → Snapshot Float
  unfolding avg_latency_ms uptime_seconds
  snapshot now m = record {
    service = m.service;
    request_count = m.request_count;
    error_count = m.error_count;
    avg_latency_ms = fl.round (avg_latency_ms m) 3;
    uptime_seconds = fl.round (uptime_seconds now m) 3;
  }
