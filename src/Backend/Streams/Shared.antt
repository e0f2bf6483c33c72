-- ===== src/Backend/Streams/Shared.antt =====
-- The backend and the driver act on a log stream only by the stream's own calls.
use nanokube.Prelude.{
  ◌≡◌, refl, sym, ap, ◌∙◌, subst, inl, inr, true, Option, none, some, List, [], ◌∷◌, ◌++◌, arith,
  Bool-cases, Option-cases, Str, same, same_iff, member, Dict, lookup, insert, lookup-insert,
  lookup-insert_self, Result, ok, fail,
}
use nanokube.Logs.Stream.{
  LogStream, Event, starts, stops, destroys, start, stop, destroy, reopen, new_log_stream, step,
  history,
}
use nanokube.Logs.Stream.Lifecycle.{Inv, IsFrozen, history-IsFrozen, history-new_log_stream-Inv}
use nanokube.Docker.Sandbox.Status.{SandboxInspect}
use nanokube.Docker.Sandbox.Life.{
  Engine, EngineError, not_found, engine_error, Driver, with_stream, start_container,
  stop_container, remove_container, reopen_container_log, after_start, after_end, reopened,
}
use nanokube.Backend.Streams.{
  Manager, ContainerCall, pre_starts, starts_container, stops_container, removes_container,
  reopens_log, post_stops, with_log_stream, post_stop_container, pre_started, pre_start_container,
  call_container, call_containers,
}

-- A table in which the stream of a container has gone through some calls.
pub record Went (id : Str) (st : LogStream) (m : Dict LogStream) : Type 0 where
  pub events : List Event
  pub stream : lookup id m ≡ some (history st events)

stayed : (id : Str) (st : LogStream) (m : Dict LogStream) → lookup id m ≡ some st → Went id st m
unfolding history
stayed id st m h = record { events = []; stream = h }

history-append :
    (st : LogStream) (xs ys : List Event) → history st (xs ++ ys) ≡ history (history st xs) ys
unfolding history
history-append st [] ys = refl
history-append st (x ∷ xs) ys = history-append (step st x) xs ys

-- A stream is put back after some calls.
put_back :
    (id j : Str) (st old : LogStream) (es : List Event) (m : Dict LogStream)
    → lookup id m ≡ some st
    → lookup j m ≡ some old
    → Went id st (insert j (history old es) m)
unfolding history
put_back id j st old es m h g = elim (Bool-cases (same j id)) [
  | inl hit ↦
      let there : lookup id m ≡ some old =
        subst (λ t. lookup t m ≡ some old) ((same_iff j id).0 hit) g in
      record {
        events = es;
        stream =
            lookup-insert j id (history old es) m
            ∙ rw hit
                (ap (λ (x : LogStream). some (history x es)) (some_same old st (sym there ∙ h)));
      }
  | inr miss ↦ record { events = []; stream = lookup-insert j id (history old es) m ∙ rw miss h }
]
  where
    some_same : (x y : LogStream) → some x ≡ some y → x ≡ y
    some_same x y e = cc

with_stream-Went :
    (id j : Str) (st : LogStream) (f : LogStream → LogStream) (e : Event) (m : Dict LogStream)
    → ((x : LogStream) → f x ≡ step x e)
    → lookup id m ≡ some st
    → Went id st (with_stream j f (lookup j m) m)
unfolding history
with_stream-Went id j st f e m same_step h = elim (Option-cases (lookup j m)) [
  | inl none_there ↦
      subst (λ o. Went id st (with_stream j f o m)) (sym none_there) (stayed id st m h)
  | inr (old, there) ↦
      subst (λ o. Went id st (with_stream j f o m)) (sym there)
        (subst (λ x. Went id st (insert j x m)) (sym (same_step old))
          (put_back id j st old (e ∷ []) m h there))
]

module _ {S N : Type 0} (e : Engine S) (id : Str) (st : LogStream) where
  after_start-Went :
      (j : Str) (d : Driver S N) (x : S × Option Str)
      → lookup id d.log_streams ≡ some st
      → Went id st (after_start e j d x).0.log_streams
  unfolding step
  after_start-Went j d (s, some err) h = stayed id st d.log_streams h
  after_start-Went j d (s, none) h =
      with_stream-Went id j st (start (e.log_answers s j)) (starts (e.log_answers s j))
        d.log_streams (λ x. refl) h

  after_end-Went :
      (j : Str) (d : Driver S N) (err : Option EngineError)
      → lookup id d.log_streams ≡ some st
      → Went id st (after_end j d err).0.log_streams
  unfolding step
  after_end-Went j d none h = with_stream-Went id j st stop stops d.log_streams (λ x. refl) h
  after_end-Went j d (some not_found) h =
      with_stream-Went id j st stop stops d.log_streams (λ x. refl) h
  after_end-Went j d (some (engine_error err)) h = stayed id st d.log_streams h

  reopen-Went :
      (j : Str) (d : Driver S N)
      → lookup id d.log_streams ≡ some st
      → Went id st (reopen_container_log e j d).0.log_streams
  unfolding reopen_container_log reopen step history
  reopen-Went j d h = elim (Option-cases (lookup j d.log_streams)) [
    | inl none_there ↦
        subst (λ o. Went id st (reopened j (e.log_answers d.engine j) d o).0.log_streams)
          (sym none_there) (stayed id st d.log_streams h)
    | inr (old, there) ↦
        subst (λ o. Went id st (reopened j (e.log_answers d.engine j) d o).0.log_streams)
          (sym there)
          (put_back id j st old (stops ∷ starts (e.log_answers d.engine j) ∷ []) d.log_streams h
            there)
  ]

  with_log_stream-Went :
      (j path : Str) (r : Result Str SandboxInspect) (m : Manager S N) (o : Option LogStream)
      → lookup j m.driver.log_streams ≡ o
      → lookup id m.driver.log_streams ≡ some st
      → Went id st (with_log_stream j path r m o).0.driver.log_streams
  unfolding history
  with_log_stream-Went j path r m (some old) g h = stayed id st m.driver.log_streams h
  with_log_stream-Went j path (fail err) m none g h = stayed id st m.driver.log_streams h
  with_log_stream-Went j path (ok i) m none g h = elim (Bool-cases (same j id)) [
    | inl hit ↦
        not_missing
          (sym (subst (λ t. lookup t m.driver.log_streams ≡ none) ((same_iff j id).0 hit) g) ∙ h)
    | inr miss ↦ record {
      events = [];
      stream = lookup-insert j id (new_log_stream path) m.driver.log_streams ∙ rw miss h;
    }
  ]
    where
      not_missing : {A : Type 0} → none ≡ some st → A
      not_missing k = cc

  pre_started-Went :
      (log_path : S → Str → Result Str Str) (j : Str) (m : Manager S N) (r : Result Str Str)
      → lookup id m.driver.log_streams ≡ some st
      → Went id st (pre_started e log_path j m r).0.driver.log_streams
  pre_started-Went log_path j m (fail err) h = stayed id st m.driver.log_streams h
  pre_started-Went log_path j m (ok path) h =
      with_log_stream-Went j path (e.inspect m.driver.engine j) m (lookup j m.driver.log_streams)
        refl h

  post_stop-Went :
      (j : Str) (m : Manager S N)
      → lookup id m.driver.log_streams ≡ some st
      → Went id st (post_stop_container j m).driver.log_streams
  unfolding post_stop_container step
  post_stop-Went j m h = elim (Bool-cases (member j m.own)) [
    | inl own ↦
        rw own (with_stream-Went id j st destroy destroys m.driver.log_streams (λ x. refl) h)
    | inr other ↦ rw other (stayed id st m.driver.log_streams h)
  ]

  call_container-Went :
      (log_path : S → Str → Result Str Str) (m : Manager S N) (c : ContainerCall)
      → lookup id m.driver.log_streams ≡ some st
      → Went id st (call_container e log_path m c).driver.log_streams
  unfolding call_container pre_start_container start_container stop_container remove_container
  call_container-Went log_path m (pre_starts j) h =
      pre_started-Went log_path j m (log_path m.driver.engine j) h
  call_container-Went log_path m (starts_container j) h =
      after_start-Went j m.driver (e.start_box m.driver.engine j) h
  call_container-Went log_path m (stops_container j) h =
      let (s, err) = e.stop_box m.driver.engine j in
      after_end-Went j (record m.driver { engine = s }) err h
  call_container-Went log_path m (removes_container j) h =
      let (s, err) = e.remove_box m.driver.engine j in
      after_end-Went j (record m.driver { engine = s }) err h
  call_container-Went log_path m (reopens_log j) h = reopen-Went j m.driver h
  call_container-Went log_path m (post_stops j) h = post_stop-Went j m h

module _ {S N : Type 0} (e : Engine S) (log_path : S → Str → Result Str Str) (id : Str) where
  call_containers-Went :
      (cs : List ContainerCall) (m : Manager S N) (st : LogStream)
      → lookup id m.driver.log_streams ≡ some st
      → Went id st (call_containers e log_path m cs).driver.log_streams
  unfolding call_containers
  call_containers-Went [] m st h = stayed id st m.driver.log_streams h
  call_containers-Went (c ∷ cs) m st h =
      let first = call_container-Went e id st log_path m c h in
      let rest =
        call_containers-Went cs (call_container e log_path m c) (history st first.events)
          first.stream in
      record {
        events = first.events ++ rest.events;
        stream =
            rest.stream
            ∙ ap (λ (x : LogStream). some x) (sym (history-append st first.events rest.events));
      }

destroy-destroyed : (s : LogStream) → (destroy s).destroyed ≡ true
unfolding destroy
destroy-destroyed s = ground arith

-- The stream of a container rests.
pub record Rests (id : Str) (ended : LogStream) (m : Dict LogStream) : Type 0 where
  pub rested : LogStream
  pub there : lookup id m ≡ some rested
  pub frozen : IsFrozen ended rested

-- After PostStopContainer of a container that the backend holds the stream of, the driver's table
-- still has that stream, destroyed, and no call of PreStart, Start, Stop, Remove, Reopen or PostStop
-- on any container opens or closes a file or a run of it any more. The stream is one that was new
-- and went through calls of its own.
pub post_stop_container-Rests :
    {S N : Type 0} (e : Engine S) (log_path : S → Str → Result Str Str) (id path : Str)
    (before : List Event) (m : Manager S N) (cs : List ContainerCall)
    → member id m.own ≡ true
    → lookup id m.driver.log_streams ≡ some (history (new_log_stream path) before)
    → Rests id
        (destroy (history (new_log_stream path) before))
        (call_containers e log_path (post_stop_container id m) cs).driver.log_streams
unfolding post_stop_container step history
post_stop_container-Rests e log_path id path before m cs own here =
    let old = history (new_log_stream path) before in
    let ended = destroy old in
    let inv : Inv ended =
      subst Inv (history-append (new_log_stream path) before (destroys ∷ []))
        (history-new_log_stream-Inv path (before ++ (destroys ∷ []))) in
    let stopped : lookup id (post_stop_container id m).driver.log_streams ≡ some ended = rw own (
      ap (λ o. lookup id (with_stream id destroy o m.driver.log_streams)) here
      ∙ lookup-insert_self id ended m.driver.log_streams) in
    let went = call_containers-Went e log_path id cs (post_stop_container id m) ended stopped in
    record {
      rested = history ended went.events;
      there = went.stream;
      frozen = history-IsFrozen went.events ended inv (destroy-destroyed old);
    }
