-- ===== src/Backend/Streams/Tests.antt =====
-- The shared log stream of a concrete container.
use nanokube.Prelude.{refl, true, false, none, [], ◌∷◌, str, same, lookup, ok, fail}
use nanokube.Network.Pool.{Network}
use nanokube.Logs.Stream.{Answers, LogStream, new_log_stream, history, starts, destroy}
use nanokube.Docker.Images.{image_not_found}
use nanokube.Docker.Sandbox.Life.{Engine}
use nanokube.Backend.Streams.{
  Manager, pre_starts, starts_container, reopens_log, call_containers, post_stop_container,
}
use nanokube.Backend.Streams.Shared.{Rests, post_stop_container-Rests}

abbrev pool : Network Unit
pool = record {
  default_done = true;
  default_net = none;
  networks = [];
  next_ip = [];
  service = tt;
  cancelled = false;
}

abbrev answers : Answers
answers = record { mkdir_ok = true; open_ok = true; source_ok = true }

-- A runtime that starts and stops everything.
abbrev engine : Engine Unit
engine = record {
  inspect = λ s id. fail [];
  list = λ s fs. ok [];
  create = λ s w. (s, fail []);
  start_box = λ s id. (s, none);
  stop_box = λ s id. (s, none);
  remove_box = λ s id. (s, none);
  image_inspect = λ s ref. fail image_not_found;
  image_pull = λ s ref. (s, none);
  log_answers = λ s id. answers;
}

abbrev running : LogStream
running = history (new_log_stream (str "/log")) (starts answers ∷ [])

abbrev manager : Manager Unit Unit
manager = record {
  driver = record { engine = tt; log_streams = (str "c1", running) ∷ []; network = pool };
  own = str "c1" ∷ [];
}

post_stop_container-Rests_example :
    Rests
      (str "c1")
      (destroy running)
      (call_containers engine
        (λ s id. ok (str "/log"))
        (post_stop_container (str "c1") manager)
        (pre_starts (str "c1")
          ∷ starts_container (str "c1")
          ∷ reopens_log (str "c1")
          ∷ [])).driver.log_streams
unfolding same lookup
post_stop_container-Rests_example =
    post_stop_container-Rests engine (λ s id. ok (str "/log")) (str "c1") (str "/log")
      (starts answers ∷ []) manager
      (pre_starts (str "c1") ∷ starts_container (str "c1") ∷ reopens_log (str "c1") ∷ []) refl refl
