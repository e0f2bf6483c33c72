-- ===== src/Logs/Stream.antt =====
-- LogStreamImpl and its taps (pkg/nanokube/log.go): the flags, the files and the sources that one
-- call of Start, Stop or Destroy opens and closes. The calls are atomic here: the source takes its
-- lock in Start and in Stop, but none in Destroy, and Start asks for `destroyed` before it locks, so
-- a Start that runs while Destroy does is not modelled. A `run` is one successful call of the runtime's LogSource, with the
-- two pumps that read it; it is open until its context is cancelled or its source is closed.
pub mod Lifecycle
pub mod Reopen
use nanokube.Prelude.{
  ℕ, zero, suc, ◌+◌, ◌-◌, ◌*◌, ◌/◌, ◌%◌, ◌^◌, ◌≤◌, ◌<◌, ◌≡◌, refl, sym, ap, ◌∙◌, subst, ◌≢◌, ◌↔◌,
  ◌⊎◌, inl, inr, Bool, true, false, ◌&&◌, ◌||◌, not, Option, none, some, List, [], ◌∷◌, ◌++◌, map,
  arith, ltb, leb, ◌==◌, if◌then◌else◌, ltb→lt, lt→ltb, leb→le, ==_iff, Bool-cases, Option-cases,
  length, take, drop, length-append, length-drop, length-take, take-append, drop-append,
  take-append-drop, All, All-append, Str, str, same, same_iff, same_refl, same_ne,
  append_left_cancel, has_prefix, has_prefix-append, Dict, lookup, insert, copy_into, lookup-insert,
  lookup-insert_self, lookup-insert_ne, value_of, Returns, Returns-some,
}

-- `tap`: writes go nowhere until a reader is attached, then into a pipe.
pub record Tap : Type 0 where
  pub attached : Bool
  pub closed : Bool
  pub piped : Str

abbrev pub new_tap : Tap
new_tap = record { attached = false; closed = false; piped = [] }

-- `Write`, with whether it succeeded: a closed pipe refuses.
unfoldable pub tap_write : Tap → Str → Tap × Bool
tap_write t line =
    if not t.attached
    then (t, true)
    else if t.closed
    then (t, false)
    else (record t { piped = t.piped ++ line }, true)

-- `Reader`; the pipe is made once.
unfoldable pub tap_reader : Tap → Tap
tap_reader t = if t.attached then t else record t { attached = true }

-- `Close`.
unfoldable pub tap_close : Tap → Tap
tap_close t = if t.attached then record t { closed = true } else t

pub record LogStream : Type 0 where
  -- `status.LogPath`; empty for a nil status too
  pub log_path : Str
  pub stdout : Tap
  pub stderr : Tap
  -- the runs that `cancelFn` and `closeSource` belong to
  pub cancel_fn : Option ℕ
  pub close_source : Option ℕ
  -- whether `logFile` is set, and what was appended to it
  pub log_file : Bool
  pub disk : Str
  pub started : Bool
  pub stopped : Bool
  pub destroyed : Bool
  -- the runs that have not ended, and the number of the next one
  pub open_runs : List ℕ
  pub next_run : ℕ
  -- the run of each pump that has not returned
  pub pumps : List ℕ

unfoldable pub new_log_stream : Str → LogStream
new_log_stream path = record {
  log_path = path;
  stdout = new_tap;
  stderr = new_tap;
  cancel_fn = none;
  close_source = none;
  log_file = false;
  disk = [];
  started = false;
  stopped = false;
  destroyed = false;
  open_runs = [];
  next_run = 0;
  pumps = [];
}

abbrev pub has : ℕ → List ℕ → Bool
has r [] = false
has r (x ∷ xs) = x == r || has r xs

unfoldable pub remove : ℕ → List ℕ → List ℕ
remove r [] = []
remove r (x ∷ xs) = if x == r then remove r xs else x ∷ remove r xs

unfoldable pub end_run : Option ℕ → List ℕ → List ℕ
unfolding remove
end_run none rs = rs
end_run (some r) rs = remove r rs

-- `Stop`.
unfoldable pub stop : LogStream → LogStream
stop s = if not s.started then s else if s.stopped then s else record s {
  stopped = true;
  open_runs = end_run s.close_source (end_run s.cancel_fn s.open_runs);
  log_file = false;
}

-- What the system answers to the calls that Start makes.
pub record Answers : Type 0 where
  pub mkdir_ok : Bool
  pub open_ok : Bool
  pub source_ok : Bool

-- The part of Start from `context.WithCancel` on.
unfoldable pub start_source : Answers → LogStream → LogStream
start_source a s =
    let cancellable = record s { cancel_fn = some s.next_run; next_run = s.next_run + 1 } in
    if a.source_ok
    then record cancellable {
      close_source = some s.next_run;
      open_runs = s.next_run ∷ s.open_runs;
      pumps = s.next_run ∷ s.next_run ∷ s.pumps;
    }
    else stop cancellable

-- `Start`.
unfoldable pub start : Answers → LogStream → LogStream
unfolding start_source
start a s =
    let marked = record s { started = true; stopped = false } in
    if s.destroyed
    then s
    else if same s.log_path []
    then start_source a marked
    else if not a.mkdir_ok
    then stop marked
    else if not a.open_ok
    then stop marked
    else start_source a (record marked { log_file = true })

-- `Destroy`.
unfoldable pub destroy : LogStream → LogStream
destroy s = if s.destroyed then s else record (stop s) {
  destroyed = true;
  stdout = tap_close (stop s).stdout;
  stderr = tap_close (stop s).stderr;
}

-- ReopenContainerLog of pkg/driver/docker/docker.go.
unfoldable pub reopen : Answers → LogStream → LogStream
reopen a s = start a (stop s)

abbrev pub take_out : ℕ → List ℕ → List ℕ
take_out r [] = []
take_out r (x ∷ xs) = if x == r then xs else x ∷ take_out r xs

-- A pump of a run returns, where there is one: its deferred Stop, of whatever runs then.
unfoldable pub pump_return : ℕ → LogStream → LogStream
pump_return r s = if has r s.pumps then stop (record s { pumps = take_out r s.pumps }) else s

-- The calls on a stream, and the return of a pump of a run.
pub data Event : Type 0 where
  starts : Answers → Event
  stops destroys attaches_stdout attaches_stderr : Event
  pump_returns : ℕ → Event

unfoldable pub step : LogStream → Event → LogStream
step s (starts a) = start a s
step s stops = stop s
step s destroys = destroy s
step s attaches_stdout = record s { stdout = tap_reader s.stdout }
step s attaches_stderr = record s { stderr = tap_reader s.stderr }
step s (pump_returns r) = pump_return r s

unfoldable pub history : LogStream → List Event → LogStream
history s [] = s
history s (e ∷ es) = history (step s e) es
