-- ===== src/Logs/Stream/Reopen.antt =====
-- Stops and starts of a log stream in a row: ReopenContainerLog of pkg/driver/docker/docker.go on
-- the stream of pkg/nanokube/log.go.
use nanokube.Prelude.{
  ℕ, ◌+◌, ◌≡◌, refl, ap, ◌∙◌, ◌≢◌, Bool, true, false, not, some, List, [], ◌∷◌, arith, All, same,
  if◌then◌else◌, Str,
}
use nanokube.Logs.Stream.{
  LogStream, Answers, Event, starts, pump_returns, stop, start, destroy, reopen, step, history,
  remove, end_run, has, take_out, pump_return,
}

has-remove : (r : ℕ) (xs : List ℕ) → has r (remove r xs) ≡ false
unfolding remove
has-remove r [] = refl
has-remove r (x ∷ xs) = ground (arith, has-remove r xs)

has-remove_ne : (r x : ℕ) (xs : List ℕ) → r ≢ x → has r (remove x xs) ≡ has r xs
unfolding remove
has-remove_ne r x [] h = refl
has-remove_ne r x (y ∷ xs) h = ground (arith, has-remove_ne r x xs h)

-- A stop that runs ends the run of the last start and closes the log file, and a second stop
-- changes nothing.
stop_lem :
    (s : LogStream) {r : ℕ}
    → s.started ≡ true
    → s.stopped ≡ false
    → s.close_source ≡ some r
    → (has r (stop s).open_runs ≡ false) × ((stop s).log_file ≡ false) × (stop (stop s) ≡ stop s)
unfolding stop end_run
stop_lem s {r} p q e = ground (arith, has-remove r (end_run s.cancel_fn s.open_runs))

stop-stopped : (s : LogStream) → s.started ≡ true → (stop s).stopped ≡ true
unfolding stop
stop-stopped s p = ground arith

stop_ends :
    (s : LogStream) {r : ℕ}
    → s.started ≡ true
    → s.stopped ≡ false
    → s.close_source ≡ some r
    → s.cancel_fn ≡ some r
    → (stop s).open_runs ≡ remove r (remove r s.open_runs)
unfolding stop end_run
stop_ends s p q e c = ground arith

abbrev pub granted : Answers
granted = record { mkdir_ok = true; open_ok = true; source_ok = true }

-- A start that the system grants runs, and what it opened is known to the stream.
start-granted :
    (s : LogStream)
    → s.destroyed ≡ false
    → let t = start granted s in
      (t.started ≡ true)
      × (t.stopped ≡ false)
      × (t.close_source ≡ some s.next_run)
      × (t.cancel_fn ≡ some s.next_run)
      × (t.open_runs ≡ s.next_run ∷ s.open_runs)
      × (t.next_run ≡ s.next_run + 1)
      × (t.destroyed ≡ false)
      × (t.pumps ≡ s.next_run ∷ s.next_run ∷ s.pumps)
      × (t.log_file ≡ (if same s.log_path [] then s.log_file else true))
      × (t.log_path ≡ s.log_path)
unfolding start
start-granted s d = ground arith

stop_keeps :
    (s : LogStream)
    → ((stop s).next_run ≡ s.next_run)
      × ((stop s).destroyed ≡ s.destroyed)
      × ((stop s).pumps ≡ s.pumps)
      × ((stop s).log_path ≡ s.log_path)
unfolding stop
stop_keeps s = ground arith

-- A stream that is reopened is at work with a new run, beside what its stop has left.
reopen-granted :
    (s : LogStream)
    → s.destroyed ≡ false
    → let t = reopen granted s in
      (t.started ≡ true)
      × (t.stopped ≡ false)
      × (t.close_source ≡ some s.next_run)
      × (t.open_runs ≡ s.next_run ∷ (stop s).open_runs)
      × (t.pumps ≡ s.next_run ∷ s.next_run ∷ s.pumps)
      × (t.log_file ≡ (if same s.log_path [] then (stop s).log_file else true))
unfolding reopen
reopen-granted s alive =
    let (n, d, p, path) = stop_keeps s in
    let (up, on, src, _, runs, _, _, pumps, file, _) = start-granted (stop s) (d ∙ alive) in
    (
      up,
      on,
      src ∙ ap some n,
      runs ∙ ap (λ r. r ∷ (stop s).open_runs) n,
      pumps ∙ ap (λ r. r ∷ r ∷ (stop s).pumps) n ∙ ap (λ ps. s.next_run ∷ s.next_run ∷ ps) p,
      file ∙ ap (λ (t : Str). if same t [] then (stop s).log_file else true) path,
    )

-- The event is no call of Start.
abbrev pub IsNoStart : Event → Type 0
IsNoStart (starts a) = ⊥
IsNoStart _ = Unit

-- A stopped stream stays as it is until it is started.
step-stopped :
    (s : LogStream) (e : Event)
    → IsNoStart e
    → s.stopped ≡ true
    → let t = step s e in
      (t.stopped ≡ true) × (t.log_file ≡ s.log_file) × (t.open_runs ≡ s.open_runs)
unfolding step stop destroy pump_return
step-stopped s (starts a) h stopped = elim h [ ]
step-stopped s _ h stopped = ground arith

history-stopped :
    (es : List Event) (s : LogStream)
    → All IsNoStart es
    → s.stopped ≡ true
    → let t = history s es in
      (t.stopped ≡ true) × (t.log_file ≡ s.log_file) × (t.open_runs ≡ s.open_runs)
unfolding history
history-stopped [] s h stopped = (stopped, refl, refl)
history-stopped (e ∷ es) s h stopped =
    let (stopped', f, o) = step-stopped s e h.0 stopped in
    let (stopped'', f', o') = history-stopped es (step s e) h.1 stopped' in
    (stopped'', f' ∙ f, o' ∙ o)

-- A stream that was started for the run `r` and then reopened: the source of that run is closed, so
-- that the reads of its pumps fail, while the run behind it and the file are open; and what it
-- comes to when such a pump has returned, and whatever `later` is called but Start.
pub record Undone (s : LogStream) (r : ℕ) (later : List Event) : Type 0 where
  pub ran : has r (start granted s).open_runs ≡ true
  pub reads_fail : has r (reopen granted (start granted s)).open_runs ≡ false
  pub pump_left : has r (reopen granted (start granted s)).pumps ≡ true
  pub reopened : has (r + 1) (reopen granted (start granted s)).open_runs ≡ true
  pub filing : (reopen granted (start granted s)).log_file ≡ not (same s.log_path [])
  pub running : (reopen granted (start granted s)).stopped ≡ false
  pub stopped : (history (reopen granted (start granted s)) (pump_returns r ∷ later)).stopped ≡ true
  pub closed :
      (history (reopen granted (start granted s)) (pump_returns r ∷ later)).log_file ≡ false
  pub ended :
      has (r + 1) (history (reopen granted (start granted s)) (pump_returns r ∷ later)).open_runs
      ≡ false

-- A pump that is left from another run stops the run that is at work.
pump_return-stops :
    (s : LogStream) (r r' : ℕ)
    → has r s.pumps ≡ true
    → s.started ≡ true
    → s.stopped ≡ false
    → s.close_source ≡ some r'
    → let t = step s (pump_returns r) in
      (t.stopped ≡ true) × (t.log_file ≡ false) × (has r' t.open_runs ≡ false)
unfolding step pump_return
pump_return-stops s r r' left up on src =
    let s' = record s { pumps = take_out r s.pumps } in
    let (gone, closed, _) = stop_lem s' up on src in rw left (stop-stopped s' up, closed, gone)

has-head : (r : ℕ) (xs : List ℕ) → has r (r ∷ xs) ≡ true
has-head r xs = ground arith

has-third : (r x : ℕ) (xs : List ℕ) → has r (x ∷ x ∷ r ∷ xs) ≡ true
has-third r x xs = ground arith

has-skip : (r : ℕ) (xs : List ℕ) → has r xs ≡ false → has r ((r + 1) ∷ xs) ≡ false
has-skip r xs h = ground arith

-- The bug of ReopenContainerLog: a stream that is not destroyed is started and then reopened, with
-- every call of the system granted. The reopened run is open, and the file with it if the stream has
-- a path; the source of the run before is closed, and its pumps have still to return. When one of
-- them returns, the stream is stopped, the file is closed and the reopened run is ended, and so it
-- stays whatever is called then but Start.
pub reopen-Undone :
    (s : LogStream) (later : List Event)
    → s.destroyed ≡ false
    → All IsNoStart later
    → Undone s s.next_run later
unfolding history
reopen-Undone s later alive calm =
    let a = start granted s in
    let r = s.next_run in
    let (up, on, src, _, runs, n, alive', pumps, _, path) = start-granted s alive in
    let (up', on', src', runs', pumps', file') = reopen-granted a alive' in
    let (gone, no_file, _) = stop_lem a up on src in
    let left : has r (reopen granted a).pumps ≡ true =
      ap (has r) (pumps' ∙ ap (λ ps. a.next_run ∷ a.next_run ∷ ps) pumps)
      ∙ has-third r a.next_run (r ∷ s.pumps) in
    let (stopped, closed, over) =
      pump_return-stops (reopen granted a) r (r + 1) left up' on' (src' ∙ ap some n) in
    let (stopped', closed', over') = history-stopped later _ calm stopped in
    let next_runs : (reopen granted a).open_runs ≡ (r + 1) ∷ (stop a).open_runs =
      runs' ∙ ap (λ x. x ∷ (stop a).open_runs) n in
    record {
      ran = ap (has r) runs ∙ has-head r s.open_runs;
      reads_fail = ap (has r) next_runs ∙ has-skip r (stop a).open_runs gone;
      pump_left = left;
      reopened = ap (has (r + 1)) next_runs ∙ has-head (r + 1) (stop a).open_runs;
      filing =
          file'
          ∙ ap (λ (t : Str). if same t [] then (stop a).log_file else true) path
          ∙ ap (λ b. if same s.log_path [] then b else true) no_file
          ∙ by_path (same s.log_path []);
      running = on';
      stopped = stopped';
      closed = closed' ∙ closed;
      ended = ap (has (r + 1)) over' ∙ over;
    }
  where
    by_path : (b : Bool) → (if b then false else true) ≡ not b
    by_path true = refl
    by_path false = refl

-- A stream that is started twice with no stop between loses the first run: the stop that follows
-- ends only the second, and the first stays open.
start_twice_leaks :
    (s : LogStream)
    → s.destroyed ≡ false
    → has s.next_run (stop (start granted (start granted s))).open_runs ≡ true
start_twice_leaks s d =
    let (_, _, _, _, runs, n, d', _, _, _) = start-granted s d in
    let (up, on, src, cancel, runs', _, _, _, _, _) = start-granted (start granted s) d' in
    rw (stop_ends (start granted (start granted s)) up on src cancel, runs', runs, n)
      (has-remove_ne s.next_run _ _ (omega arith)
        ∙ has-remove_ne s.next_run _ _ (omega arith)
        ∙ ground arith)
