-- ===== src/Start.antt =====
-- cmd/main.go: the start of the operator.
use valkeycluster_operator.Prelude.{ℕ, ⊤, Bool, true, false, List, [], ◌∷◌, if◌then◌else◌}
use valkeycluster_operator.Text.{Text, codes, is_empty}
use valkeycluster_operator.Exec.{Exec, Result, ok, err, ◌>>=◌, ◌>>◌}
use valkeycluster_operator.Cluster.GoRedis.{Client, Resolver, PodExecutor, Admin}
use valkeycluster_operator.Cluster.GoRedis.Interface.{go_redis}
use valkeycluster_operator.Controller.{Kube, Reconciler}
use valkeycluster_operator.Controller.Loop.Setup.{Watches, setup_with_manager}

-- the command line, once it is parsed; the options of the logger are left out
pub record Flags : Type 0 where
  pub metrics_addr : Text
  pub probe_addr : Text
  pub enable_leader_election : Bool
  pub secure_metrics : Bool
  pub webhook_cert_path : Text
  pub webhook_cert_name : Text
  pub webhook_cert_key : Text
  pub metrics_cert_path : Text
  pub metrics_cert_name : Text
  pub metrics_cert_key : Text
  pub enable_http2 : Bool

abbrev pub default_flags : Flags
default_flags = record {
  metrics_addr = codes "0";
  probe_addr = codes ":8081";
  enable_leader_election = false;
  secure_metrics = true;
  webhook_cert_path = [];
  webhook_cert_name = codes "tls.crt";
  webhook_cert_key = codes "tls.key";
  metrics_cert_path = [];
  metrics_cert_name = codes "tls.crt";
  metrics_cert_key = codes "tls.key";
  enable_http2 = false;
}

-- `tls.Config`
pub record TlsConfig : Type 0 where
  pub next_protos : List Text

abbrev pub disable_http2 : TlsConfig → TlsConfig
disable_http2 c = record { next_protos = codes "http/1.1" ∷ [] }

unfoldable pub tls_opts : Flags → List (TlsConfig → TlsConfig)
tls_opts f = if f.enable_http2 then [] else disable_http2 ∷ []

-- the certificate of a server: its directory and the names of its files, empty if they are not given
pub record Certificate : Type 0 where
  pub cert_dir : Text
  pub cert_name : Text
  pub key_name : Text

abbrev no_certificate : Certificate
no_certificate = record { cert_dir = []; cert_name = []; key_name = [] }

pub record WebhookOptions : Type 0 where
  pub tls_opts : List (TlsConfig → TlsConfig)
  pub certificate : Certificate

-- `authenticated` says that the filter provider is `WithAuthenticationAndAuthorization`
pub record MetricsOptions : Type 0 where
  pub bind_address : Text
  pub secure_serving : Bool
  pub authenticated : Bool
  pub tls_opts : List (TlsConfig → TlsConfig)
  pub certificate : Certificate

pub record ManagerOptions : Type 0 where
  pub metrics : MetricsOptions
  pub webhook : WebhookOptions
  pub health_probe_bind_address : Text
  pub leader_election : Bool
  pub leader_election_id : Text

unfoldable pub webhook_options : Flags → WebhookOptions
webhook_options f = record {
  tls_opts = tls_opts f;
  certificate = if is_empty f.webhook_cert_path then no_certificate else record {
    cert_dir = f.webhook_cert_path;
    cert_name = f.webhook_cert_name;
    key_name = f.webhook_cert_key;
  };
}

unfoldable pub metrics_options : Flags → MetricsOptions
metrics_options f = record {
  bind_address = f.metrics_addr;
  secure_serving = f.secure_metrics;
  authenticated = f.secure_metrics;
  tls_opts = tls_opts f;
  certificate = if is_empty f.metrics_cert_path then no_certificate else record {
    cert_dir = f.metrics_cert_path;
    cert_name = f.metrics_cert_name;
    key_name = f.metrics_cert_key;
  };
}

unfoldable pub manager_options : Flags → ManagerOptions
manager_options f = record {
  metrics = metrics_options f;
  webhook = webhook_options f;
  health_probe_bind_address = f.probe_addr;
  leader_election = f.enable_leader_election;
  leader_election_id = codes "75190610.razkevich.dev";
}

-- what is used of controller-runtime and of the clients: a manager, what it gives, a controller that
-- watches kinds of objects and runs a reconciler, and the manager's life
pub record Runtime (W : Type 0) : Type 1 where
  pub Manager : Type 0
  pub new_manager : ManagerOptions → Exec W Manager
  pub new_pod_exec : Manager → Exec W (PodExecutor W)
  pub get_client : Manager → Kube W
  pub client : Client W
  pub resolver : Resolver W
  pub complete : Manager → Watches → Reconciler W → Exec W ⊤
  pub add_healthz_check : Manager → Text → Exec W ⊤
  pub add_readyz_check : Manager → Text → Exec W ⊤
  pub start : Manager → Exec W ⊤

-- `os.Exit(1)` at every error
abbrev pub exit_code : {A : Type 0} → Result A → ℕ
exit_code (ok _) = 0
exit_code (err _) = 1

module _ {W : Type 0} (rt : Runtime W) (fuel : ℕ) where
  -- `NewAdmin`
  abbrev pub new_admin : PodExecutor W → Text → Admin W
  new_admin exec container = record {
    executor = exec;
    container = container;
    client = rt.client;
    resolver = rt.resolver;
  }

  abbrev pub reconciler : rt.Manager → PodExecutor W → Reconciler W
  reconciler mgr pod_exec = record {
    admin = go_redis (new_admin pod_exec (codes "valkey")) fuel;
    kube = rt.get_client mgr;
  }

  -- the steps of `main`, each of which ends the program if it fails
  unfoldable pub set_up_and_run : Flags → Exec W ⊤
  set_up_and_run f = do
    mgr ← rt.new_manager (manager_options f)
    pod_exec ← rt.new_pod_exec mgr
    setup_with_manager rt.complete (reconciler mgr pod_exec) mgr
    rt.add_healthz_check mgr (codes "healthz")
    rt.add_readyz_check mgr (codes "readyz")
    rt.start mgr

  -- `main`, with its exit code
  unfoldable pub main : Flags → W → ℕ × W
  main f w = let (r, w') = set_up_and_run f w in (exit_code r, w')
