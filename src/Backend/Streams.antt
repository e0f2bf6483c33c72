-- ===== src/Backend/Streams.antt =====
-- PreStartContainer and PostStopContainer of pkg/backend.go and the LogStream method of
-- pkg/driver/docker/docker.go: the log streams that the backend and the driver share. The backend's
-- table holds the driver's own streams, so it is the list of their ids.
pub mod Shared
mod Tests
use nanokube.Prelude.{
  ℕ, zero, suc, ◌+◌, ◌-◌, ◌*◌, ◌/◌, ◌%◌, ◌^◌, ◌≤◌, ◌<◌, ◌≡◌, refl, sym, ap, ◌∙◌, subst, ◌≢◌, ◌↔◌,
  ◌⊎◌, inl, inr, Bool, true, false, ◌&&◌, ◌||◌, not, Option, none, some, List, [], ◌∷◌, ◌++◌, map,
  arith, ltb, leb, ◌==◌, if◌then◌else◌, ltb→lt, lt→ltb, leb→le, ==_iff, Bool-cases, Option-cases,
  length, take, drop, length-append, length-drop, length-take, take-append, drop-append,
  take-append-drop, All, All-append, All-split, Str, str, same, same_iff, same_refl, same_ne,
  member, append_left_cancel, has_prefix, has_prefix-append, Dict, lookup, insert, copy_into, IsMap,
  insert-IsMap, or_else, lookup-copy_into, lookup-insert, lookup-insert_self, lookup-insert_ne,
  value_of, Returns, Returns-some, Result, ok, fail, Result-cases,
}
use nanokube.Logs.Stream.{LogStream, new_log_stream, destroy}
use nanokube.Docker.Sandbox.Status.{SandboxInspect}
use nanokube.Docker.Sandbox.Life.{
  Settings, Engine, Driver, with_stream, start_container, stop_container, remove_container,
  reopen_container_log,
}

pub record Manager (S N : Type 0) : Type 0 where
  pub driver : Driver S N
  pub own : List Str

unfoldable pub without_id : Str → List Str → List Str
without_id x [] = []
without_id x (y ∷ ys) = let rest = without_id x ys in if same x y then rest else y ∷ rest

-- The calls of the kubelet that reach the log streams of containers.
pub data ContainerCall : Type 0 where
  pre_starts starts_container stops_container removes_container reopens_log post_stops :
      Str → ContainerCall

abbrev pub no_stream : Str → Str
no_stream id = str "unable to create log stream for container " ++ (b'"' ∷ (id ++ (b'"' ∷ [])))

module _ {S N : Type 0} where
  abbrev pub holding : Str → Driver S N → Manager S N → Manager S N
  holding id d m = record m { driver = d; own = id ∷ m.own }

  -- LogStream for PreStartContainer: the stream that is there, or a new one if the container can be
  -- inspected.
  abbrev pub with_log_stream :
      Str
      → Str
      → Result Str SandboxInspect
      → Manager S N
      → Option LogStream
      → Manager S N × Option Str
  with_log_stream id path inspected m (some st) = (holding id m.driver m, none)
  with_log_stream id path (fail err) m none = (m, some (no_stream id))
  with_log_stream id path (ok i) m none = (
    holding id
        (record m.driver { log_streams = insert id (new_log_stream path) m.driver.log_streams }) m,
    none,
  )

  -- PostStopContainer.
  unfoldable pub post_stop_container : Str → Manager S N → Manager S N
  unfolding without_id
  post_stop_container id m =
      let d = m.driver in
      if member id m.own
      then record m {
        driver = record d {
          log_streams = with_stream id destroy (lookup id d.log_streams) d.log_streams;
        };
        own = without_id id m.own;
      }
      else m

module _ {S N : Type 0} (e : Engine S) (log_path : S → Str → Result Str Str) where
  abbrev pub pre_started : Str → Manager S N → Result Str Str → Manager S N × Option Str
  pre_started id m (fail err) = (m, none)
  pre_started id m (ok path) =
      with_log_stream id path (e.inspect m.driver.engine id) m (lookup id m.driver.log_streams)

  -- PreStartContainer; `log_path` is the log path of ContainerStatus, whose error is passed over.
  unfoldable pub pre_start_container : Str → Manager S N → Manager S N × Option Str
  pre_start_container id m = pre_started id m (log_path m.driver.engine id)

  abbrev pub on_driver : Manager S N → Driver S N × Option Str → Manager S N
  on_driver m (d, err) = record m { driver = d }

  unfoldable pub call_container : Manager S N → ContainerCall → Manager S N
  call_container m (pre_starts id) = (pre_start_container id m).0
  call_container m (starts_container id) = on_driver m (start_container e id m.driver)
  call_container m (stops_container id) = on_driver m (stop_container e id m.driver)
  call_container m (removes_container id) = on_driver m (remove_container e id m.driver)
  call_container m (reopens_log id) = on_driver m (reopen_container_log e id m.driver)
  call_container m (post_stops id) = post_stop_container id m

  unfoldable pub call_containers : Manager S N → List ContainerCall → Manager S N
  unfolding call_container
  call_containers m [] = m
  call_containers m (c ∷ cs) = call_containers (call_container m c) cs
