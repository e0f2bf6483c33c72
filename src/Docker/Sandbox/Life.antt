-- ===== src/Docker/Sandbox/Life.antt =====
-- What changes a sandbox or a container in pkg/driver/docker/docker.go: starting, stopping and
-- removing, with the log streams and the table of networks that the driver keeps.
use nanokube.Prelude.{
  ℕ, Bool, false, Option, none, some, List, [], ◌∷◌, ◌++◌, map, if◌then◌else◌, Str, str, same, Dict,
  lookup, insert, value_of, Result, ok, fail,
}
use nanokube.Network.Pool.{Service, Network, Allocated, deallocate, from_status}
use nanokube.Logs.Stream.{LogStream, Answers, start, stop, reopen}
use nanokube.Tags.Builder.{Codec, set, new_tag_builder, internal_tags, key_type, type_sandbox}
use nanokube.Docker.Images.{ImageError, ImageInspect}
use nanokube.Docker.Listing.{
  SandboxState, sandbox_statuses, label_filter, status_filter, asked, Summary, Container,
  PodSandbox, sandbox_of, list_containers, match_labels,
}
use nanokube.Docker.Sandbox.Status.{SandboxInspect, PodSandboxStatus, sandbox_status}
use nanokube.Docker.Sandbox.Plan.{SandboxWish}

-- An error of the runtime; the driver tells only whether a thing was not found.
pub data EngineError : Type 0 where
  not_found : EngineError
  engine_error : Str → EngineError

-- The runtime's client. `log_answers` is what the system answers when a container's log starts.
pub record Engine (S : Type 0) : Type 0 where
  pub inspect : S → Str → Result Str SandboxInspect
  pub list : S → List (Str × Str) → Result Str (List Summary)
  pub create : S → SandboxWish → S × Result Str Str
  pub start_box : S → Str → S × Option Str
  pub stop_box : S → Str → S × Option EngineError
  pub remove_box : S → Str → S × Option EngineError
  pub image_inspect : S → Str → Result ImageError ImageInspect
  pub image_pull : S → Str → S × Option Str
  pub log_answers : S → Str → Answers

-- What does not change: the options, the codec of the tags, the clock's parser, and the parser of
-- an address (`none` where it gives no IPv4 address).
pub record Settings : Type 0 where
  pub codec : Codec
  pub prefix : Str
  pub driver : Str
  pub unix_nano : Str → ℕ
  pub parse_ip : Str → Option Str

pub record Driver (S N : Type 0) : Type 0 where
  pub engine : S
  pub log_streams : Dict LogStream
  pub network : Network N

pub record PodSandboxFilter : Type 0 where
  pub id : Str
  pub state : Option SandboxState
  pub label_selector : Dict Str

unfoldable pub sandbox_filters : Str → Str → Option PodSandboxFilter → List (Str × Str)
sandbox_filters prefix driver f =
    map label_filter (internal_tags (set key_type type_sandbox (new_tag_builder prefix driver)))
    ++ elim f [
      | none ↦ []
      | some f ↦
          asked (str "id") f.id
          ++ elim f.state [ none ↦ [] | some st ↦ map status_filter (sandbox_statuses st) ]
    ]

abbrev pub sandbox_selector : Option PodSandboxFilter → Dict Str
sandbox_selector none = []
sandbox_selector (some f) = f.label_selector

-- A call on the stream of a container, if it has one.
abbrev pub with_stream :
    Str → (LogStream → LogStream) → Option LogStream → Dict LogStream → Dict LogStream
with_stream id f none m = m
with_stream id f (some st) m = insert id (f st) m

module _ {S N : Type 0} where
  abbrev pub on_stream : Str → (LogStream → LogStream) → Driver S N → Driver S N
  on_stream id f d = record d {
    log_streams = with_stream id f (lookup id d.log_streams) d.log_streams;
  }

  -- Whether an error ends the call: a thing that is not there is stopped and removed already.
  abbrev pub after_end : Str → Driver S N → Option EngineError → Driver S N × Option Str
  after_end id d none = (on_stream id stop d, none)
  after_end id d (some not_found) = (on_stream id stop d, none)
  after_end id d (some (engine_error e)) = (d, some e)

  -- ReopenContainerLog.
  abbrev pub reopened : Str → Answers → Driver S N → Option LogStream → Driver S N × Option Str
  reopened id a d none = (d, some (str "container log stream not found for container " ++ id))
  reopened id a d (some st) =
      (record d { log_streams = insert id (reopen a st) d.log_streams }, none)

abbrev pub listed_or_none : Result Str (List Container) → List Container
listed_or_none (fail err) = []
listed_or_none (ok cs) = cs

module _ {S N : Type 0} where
  abbrev pub give_back : Driver S N → Network N × Result Str (Option Allocated) → Driver S N
  give_back d (n, ok (some a)) = record d {
    network = record n { networks = (deallocate a n.networks).1 };
  }
  give_back d (n, ok none) = record d { network = n }
  give_back d (n, fail err) = record d { network = n }

module _ (k : Settings) where
  -- ListPodSandbox.
  unfoldable pub sandboxes_of : Dict Str → List Summary → List PodSandbox
  sandboxes_of selector [] = []
  sandboxes_of selector (s ∷ ss) =
      let rest = sandboxes_of selector ss in
      if match_labels k.codec k.prefix k.driver s.labels selector
      then sandbox_of k.codec k.prefix k.driver s ∷ rest
      else rest

  abbrev pub listed_sandboxes : Dict Str → Result Str (List Summary) → Result Str (List PodSandbox)
  listed_sandboxes selector (fail err) = fail err
  listed_sandboxes selector (ok ss) = ok (sandboxes_of selector ss)

  abbrev pub told_status : Result Str SandboxInspect → Result Str PodSandboxStatus
  told_status (fail err) = fail err
  told_status (ok i) = ok (sandbox_status k.codec k.prefix k.driver k.unix_nano i)

  -- Where the status's pod comes from, and its address; an empty status where there is none.
  abbrev pub whereabouts : Result Str PodSandboxStatus → Bool × Option Str
  whereabouts (fail err) = (false, k.parse_ip [])
  whereabouts (ok st) = (
    same (value_of (lookup (str "kubernetes.io/config.source") st.annotations)) (str "file"),
    k.parse_ip st.ip,
  )

module _ {S : Type 0} (k : Settings) (e : Engine S) where
  unfoldable pub list_pod_sandbox : S → Option PodSandboxFilter → Result Str (List PodSandbox)
  list_pod_sandbox s f =
      listed_sandboxes k (sandbox_selector f) (e.list s (sandbox_filters k.prefix k.driver f))

  unfoldable pub pod_sandbox_status : S → Str → Result Str PodSandboxStatus
  pod_sandbox_status s id = told_status k (e.inspect s id)

  abbrev pub containers_in : S → Str → Result Str (List Container)
  containers_in s id =
      list_containers k.codec k.prefix k.driver (e.list s)
        (some (record { id = []; pod_sandbox_id = id; state = none; label_selector = [] }))

module _ {S N : Type 0} (e : Engine S) where
  -- StartContainer.
  abbrev pub after_start : Str → Driver S N → S × Option Str → Driver S N × Option Str
  after_start id d (s, some err) = (record d { engine = s }, some err)
  after_start id d (s, none) =
      (on_stream id (start (e.log_answers s id)) (record d { engine = s }), none)

  unfoldable pub start_container : Str → Driver S N → Driver S N × Option Str
  start_container id d = after_start id d (e.start_box d.engine id)

  -- StopContainer and RemoveContainer.
  unfoldable pub stop_container : Str → Driver S N → Driver S N × Option Str
  stop_container id d =
      let (s, err) = e.stop_box d.engine id in after_end id (record d { engine = s }) err

  unfoldable pub remove_container : Str → Driver S N → Driver S N × Option Str
  remove_container id d =
      let (s, err) = e.remove_box d.engine id in after_end id (record d { engine = s }) err

  unfoldable pub reopen_container_log : Str → Driver S N → Driver S N × Option Str
  reopen_container_log id d = reopened id (e.log_answers d.engine id) d (lookup id d.log_streams)

  -- The loops of StopPodSandbox and RemovePodSandbox; errors are passed over.
  unfoldable pub stop_all : List Container → Driver S N → Driver S N
  stop_all [] d = d
  stop_all (c ∷ cs) d = stop_all cs (stop_container c.id d).0

  unfoldable pub remove_all : List Container → Driver S N → Driver S N
  remove_all [] d = d
  remove_all (c ∷ cs) d = remove_all cs (remove_container c.id d).0

module _ {S N : Type 0} (k : Settings) (e : Engine S) where
  abbrev pub stop_listed : Str → Driver S N → Result Str (List Container) → Driver S N × Option Str
  stop_listed id d (fail err) = (d, some err)
  stop_listed id d (ok cs) = stop_container e id (stop_all e cs d)

  -- StopPodSandbox.
  unfoldable pub stop_pod_sandbox : Str → Driver S N → Driver S N × Option Str
  stop_pod_sandbox id d = stop_listed id d (containers_in k e d.engine id)

  -- RemovePodSandbox; it returns no error.
  unfoldable pub remove_pod_sandbox : Service N → Str → Driver S N → Driver S N
  remove_pod_sandbox v id d =
      let status = pod_sandbox_status k e d.engine id in
      let removed =
        (remove_container e id
          (remove_all e (listed_or_none (containers_in k e d.engine id)) d)).0 in
      give_back removed (from_status v (some (whereabouts k status)) removed.network)
