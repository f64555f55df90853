-- ===== src/Objects/Deployment/Probes.antt =====
-- The liveness probe and the readiness probe. The two functions of
-- controllers/model/grafanaDeployment.go differ only in the part of the resource that they read.
use grafana_operator.Common.{◌==◌, Option, none, some, ℤ, pos, to_int32, if◌then◌else◌}
use grafana_operator.Cluster.Service.{from_int, get_grafana_port}
use grafana_operator.Objects.Resource.{Kubernetes, Probe, ProbeSpec, Grafana}
use grafana_operator.Objects.Deployment.Pod.{or_default}

-- The seconds between two probes: the threshold of successes overwrites the period of the resource.
abbrev probe_period : ProbeSpec → ℤ
probe_period spec = or_default spec.success_threshold (or_default spec.period_seconds (pos 10))

unfoldable pub get_probe : (port : ℤ) → Option ProbeSpec → (delay timeout failure : ℤ) → Probe
get_probe port none delay timeout failure = record {
  path = "/api/health";
  port = from_int port;
  scheme = "HTTP";
  initial_delay_seconds = delay;
  timeout_seconds = timeout;
  period_seconds = pos 10;
  success_threshold = pos 1;
  failure_threshold = failure;
}
get_probe port (some spec) delay timeout failure = record {
  path = "/api/health";
  port = from_int port;
  scheme = if spec.scheme == "" then "HTTP" else spec.scheme;
  initial_delay_seconds = or_default spec.initial_delay_seconds delay;
  timeout_seconds = or_default spec.timeout_seconds timeout;
  period_seconds = probe_period spec;
  success_threshold = pos 1;
  failure_threshold = or_default spec.failure_threshold failure;
}

module _ (k : Kubernetes) where
  unfoldable pub get_liveness_probe : Grafana k → (delay timeout failure : ℤ) → Probe
  unfolding get_probe get_grafana_port
  get_liveness_probe cr delay timeout failure =
      get_probe (to_int32 (get_grafana_port cr.served)) cr.liveness_probe_spec delay timeout failure

  unfoldable pub get_readiness_probe : Grafana k → (delay timeout failure : ℤ) → Probe
  unfolding get_probe get_grafana_port
  get_readiness_probe cr delay timeout failure =
      get_probe (to_int32 (get_grafana_port cr.served)) cr.readiness_probe_spec delay timeout
        failure
