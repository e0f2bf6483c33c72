-- ===== src/Backend/Probes.antt =====
-- rewriteProbe of pkg/backend.go: the network probes become commands that run in the sandbox.
use nanokube.Prelude.{
  ℕ, zero, suc, Option, none, some, List, [], ◌∷◌, ◌++◌, if◌then◌else◌, Str, str, same,
}
use nanokube.Tags.Decimal.{ℤ, pos, negsuc, decimal, format_int}

-- `SandboxExecSentinel` of pkg/v1/constants.go.
abbrev pub sandbox_exec_sentinel : Str
sandbox_exec_sentinel = str "__sandbox__"

-- `intstr.IntOrString`; its IntValue is a parameter.
pub data IntOrString : Type 0 where
  from_int : ℤ → IntOrString
  from_string : Str → IntOrString

pub record HttpGetAction : Type 0 where
  pub scheme : Str
  pub host : Str
  pub port : IntOrString
  pub path : Str
  pub http_headers : List (Str × Str)

pub record Probe : Type 0 where
  pub timeout_seconds : ℤ
  pub exec : Option (List Str)
  pub http_get : Option HttpGetAction
  pub tcp_socket : Option IntOrString
  pub grpc : Option ℤ

-- A timeout that is not positive is one second.
abbrev pub timeout_of : ℤ → ℕ
timeout_of (pos zero) = 1
timeout_of (pos (suc n)) = suc n
timeout_of (negsuc n) = 1

unfoldable pub header_args : List (Str × Str) → List Str
header_args [] = []
header_args ((name, value) ∷ hs) = str "--header" ∷ (name ++ (str ": " ++ value)) ∷ header_args hs

abbrev pub host_args : Str → List Str
host_args host = if same host [] then [] else str "--header" ∷ (str "Host: " ++ host) ∷ []

abbrev pub url_of : ℤ → HttpGetAction → Str
url_of port g =
    (if same g.scheme (str "HTTPS") then str "https" else str "http")
    ++ (str "://localhost:" ++ (format_int port ++ (if same g.path [] then str "/" else g.path)))

abbrev pub wget_args : ℕ → ℤ → HttpGetAction → List Str
wget_args timeout port g =
    str "wget"
    ∷ str "-q"
    ∷ str "-O"
    ∷ str "/dev/null"
    ∷ str "-S"
    ∷ str "--no-check-certificate"
    ∷ (str "--timeout=" ++ decimal timeout)
    ∷ (host_args g.host ++ (header_args g.http_headers ++ (url_of port g ∷ [])))

abbrev pub nc_args : ℕ → ℤ → List Str
nc_args timeout port =
    str "nc" ∷ str "-z" ∷ (str "-w" ++ decimal timeout) ∷ str "localhost" ∷ format_int port ∷ []

module _ (int_value : IntOrString → ℤ) where
  abbrev pub rewrite_by : Probe → Option HttpGetAction → Option IntOrString → Option ℤ → Probe
  rewrite_by p (some g) _ _ = record p {
    http_get = none;
    exec =
        some
          (sandbox_exec_sentinel ∷ wget_args (timeout_of p.timeout_seconds) (int_value g.port) g);
  }
  rewrite_by p none (some port) _ = record p {
    tcp_socket = none;
    exec = some (sandbox_exec_sentinel ∷ nc_args (timeout_of p.timeout_seconds) (int_value port));
  }
  rewrite_by p none none (some port) = record p {
    grpc = none;
    exec = some (sandbox_exec_sentinel ∷ nc_args (timeout_of p.timeout_seconds) port);
  }
  rewrite_by p none none none = p

  unfoldable pub rewrite_probe : Probe → Probe
  rewrite_probe p = rewrite_by p p.http_get p.tcp_socket p.grpc
