-- ===== src/Tags/Tests.antt =====
-- Tags on concrete resources.
use nanokube.Prelude.{◌+◌, ◌≡◌, refl, [], ◌∷◌, ◌++◌, arith, ltb, if◌then◌else◌, str, same}
use nanokube.Tags.Label.{normalize}
use nanokube.Tags.Decimal.{decimal, max_uint32}
use nanokube.Tags.Builder.{
  Codec, SandboxConfig, ContainerConfig, TagBuilder, get, new_tag_builder, with_attempt, attempt,
  increment_attempt, pod_sandbox_config, labels, annotations, build, container_builder, hydrate,
  key_name, key_sandbox_uid, empty_sandbox_config, empty_container_config,
}
use nanokube.Tags.Builder.Reading.{increment_attempt_lem, IsLawful, container_builder-hydrate}

normalize_run : normalize (str "--My_App..V2 (beta)-") ≡ str "my-app-v2beta"
unfolding normalize
normalize_run = refl

-- nothing may be left
normalize_empty : normalize (str "_._") ≡ []
unfolding normalize
normalize_empty = refl

abbrev base : TagBuilder
base = new_tag_builder (str "nanokube") (str "docker")

increment_attempt_lem_example :
    (attempt (with_attempt 41 base) ≡ 41)
    × (attempt (increment_attempt (with_attempt 41 base))
        ≡ (if ltb 41 max_uint32 then 41 + 1 else 41))
increment_attempt_lem_example = increment_attempt_lem 41 base (omega arith)

abbrev pod : SandboxConfig
pod = record {
  name = str "web";
  namespace = str "default";
  log_directory = str "/var/log/web";
  labels = [];
  annotations = [];
}

abbrev app : ContainerConfig
app = record {
  log_path = str "app/0.log";
  labels = (str "tier", str "front") ∷ [];
  annotations = [];
}

-- A codec that knows these two configs.
abbrev codec : Codec
codec = record {
  encode_sandbox = λ x. str "P";
  decode_sandbox = λ s. if same s (str "P") then pod else empty_sandbox_config;
  encode_container = λ y. str "C";
  decode_container = λ s. if same s (str "C") then app else empty_container_config;
}

codec-IsLawful : IsLawful codec pod app
unfolding same
codec-IsLawful = record {
  sandbox = refl;
  sandbox_text = λ e. cc;
  container = refl;
  container_text = λ e. cc;
}

abbrev written : TagBuilder
written = container_builder codec (str "nanokube") (str "docker") (str "app") (str "f00d") 3 app pod

container_builder-hydrate_example :
    (get (hydrate (str "nanokube") (str "docker") written.tags) key_name ≡ str "app")
    × (get (hydrate (str "nanokube") (str "docker") written.tags) key_sandbox_uid ≡ str "f00d")
    × (attempt (hydrate (str "nanokube") (str "docker") written.tags) ≡ 3)
    × (labels codec (hydrate (str "nanokube") (str "docker") written.tags) ≡ app.labels)
    × (annotations codec (hydrate (str "nanokube") (str "docker") written.tags) ≡ app.annotations)
    × (pod_sandbox_config codec (hydrate (str "nanokube") (str "docker") written.tags) ≡ pod)
    × ((build codec written).0
        ≡ str "app" ++ (b'-' ∷ (decimal 3 ++ (b'.' ∷ (pod.name ++ (b'.' ∷ pod.namespace))))))
container_builder-hydrate_example =
    container_builder-hydrate codec (str "nanokube") (str "docker") (str "app") (str "f00d") 3 app
      pod (omega arith) codec-IsLawful
