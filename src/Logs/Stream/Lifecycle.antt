-- ===== src/Logs/Stream/Lifecycle.antt =====
-- What is open in which state of a log stream (pkg/nanokube/log.go).
use nanokube.Prelude.{
  ℕ, ◌≡◌, refl, ◌∙◌, ◌⊎◌, Bool, true, false, List, [], ◌∷◌, arith, if◌then◌else◌, Str,
}
use nanokube.Logs.Stream.{
  LogStream, Answers, Event, starts, stops, destroys, attaches_stdout, attaches_stderr,
  pump_returns, new_log_stream, stop, start, start_source, destroy, step, history, has, take_out,
  pump_return,
}

pub record Inv (s : LogStream) : Type 0 where
  -- the log file is open only between a start and the stop that ends it
  pub open_file : s.log_file ≡ true → (s.started ≡ true) × (s.stopped ≡ false)
  -- a destroyed stream has nothing to stop
  pub at_rest : s.destroyed ≡ true → (s.started ≡ false) ⊎ (s.stopped ≡ true)

stop-Inv : (s : LogStream) → Inv s → Inv (stop s)
unfolding stop
stop-Inv s v = ground (arith, v.open_file, v.at_rest)

start_source-Inv :
    (a : Answers) (s : LogStream)
    → s.started ≡ true
    → s.stopped ≡ false
    → s.destroyed ≡ false
    → Inv (start_source a s)
unfolding start_source stop
start_source-Inv a s p q r = ground arith

start-Inv : (a : Answers) (s : LogStream) → Inv s → Inv (start a s)
unfolding start stop
start-Inv a s v = ground (arith, v.open_file, v.at_rest)

destroy-Inv : (s : LogStream) → Inv s → Inv (destroy s)
unfolding destroy stop
destroy-Inv s v = ground (arith, v.open_file, v.at_rest)

pump_return-Inv : (r : ℕ) (s : LogStream) → Inv s → Inv (pump_return r s)
unfolding pump_return
pump_return-Inv r s v = by_pump (has r s.pumps)
  where
    by_pump : (b : Bool) → Inv (if b then stop (record s { pumps = take_out r s.pumps }) else s)
    by_pump true = stop-Inv _ (record { open_file = v.open_file; at_rest = v.at_rest })
    by_pump false = record { open_file = v.open_file; at_rest = v.at_rest }

step-Inv : (s : LogStream) (e : Event) → Inv s → Inv (step s e)
unfolding step
step-Inv s (starts a) v = start-Inv a s v
step-Inv s stops v = stop-Inv s v
step-Inv s destroys v = destroy-Inv s v
step-Inv s attaches_stdout v = record { open_file = v.open_file; at_rest = v.at_rest }
step-Inv s attaches_stderr v = record { open_file = v.open_file; at_rest = v.at_rest }
step-Inv s (pump_returns r) v = pump_return-Inv r s v

history-Inv : (es : List Event) (s : LogStream) → Inv s → Inv (history s es)
unfolding history
history-Inv [] s v = v
history-Inv (e ∷ es) s v = history-Inv es (step s e) (step-Inv s e v)

-- After any calls on a new stream, in any order and with any answers of the system, the log file
-- is open only if the stream is started and not stopped, and a destroyed stream was never started
-- or is stopped.
pub history-new_log_stream-Inv :
    (path : Str) (es : List Event) → Inv (history (new_log_stream path) es)
unfolding new_log_stream
history-new_log_stream-Inv path es =
    history-Inv es _ (record { open_file = λ h. cc; at_rest = λ h. cc })

-- The events that a destroyed stream still answers to: only its taps change.
abbrev pub IsFrozen : LogStream → LogStream → Type 0
IsFrozen s t =
    (t.destroyed ≡ true)
    × (t.log_file ≡ s.log_file)
    × (t.open_runs ≡ s.open_runs)
    × (t.cancel_fn ≡ s.cancel_fn)

step-IsFrozen : (s : LogStream) (e : Event) → Inv s → s.destroyed ≡ true → IsFrozen s (step s e)
unfolding step stop start destroy pump_return
step-IsFrozen s (starts a) v d = ground (arith, v.at_rest)
step-IsFrozen s _ v d = ground (arith, v.at_rest)

-- Nothing revives a destroyed stream: whatever is called on it, no file and no run is opened or
-- closed any more.
pub history-IsFrozen :
    (es : List Event) (s : LogStream) → Inv s → s.destroyed ≡ true → IsFrozen s (history s es)
unfolding history
history-IsFrozen [] s v d = (d, refl, refl, refl)
history-IsFrozen (e ∷ es) s v d =
    let (d', f, o, c) = step-IsFrozen s e v d in
    let (d'', f', o', c') = history-IsFrozen es (step s e) (step-Inv s e v) d' in
    (d'', f' ∙ f, o' ∙ o, c' ∙ c)
