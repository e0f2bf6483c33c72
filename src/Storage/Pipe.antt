-- ===== src/Storage/Pipe.antt =====
-- bidiPipe of pkg/storage/stream.go: the two channels between a client and the server's handler, as
-- a step relation. A call that blocks is a step that is not there yet; where a call can take two
-- cases of its select, there are two steps. To send behind CloseSend, or to send an answer behind
-- the return of the handler, panics, and is no step.
pub mod Order
use nanokube.Prelude.{
  ℕ, zero, suc, ◌+◌, ◌-◌, ◌*◌, ◌/◌, ◌%◌, ◌^◌, ◌≤◌, ◌<◌, ◌≡◌, refl, sym, ap, ◌∙◌, subst, ◌≢◌, ◌↔◌,
  ◌⊎◌, inl, inr, Bool, true, false, ◌&&◌, ◌||◌, not, Option, none, some, List, [], ◌∷◌, ◌++◌, map,
  arith, ltb, leb, ◌==◌, if◌then◌else◌, ltb→lt, lt→ltb, leb→le, ==_iff, Bool-cases, Option-cases,
  length, take, drop, length-append, length-drop, length-take, take-append, drop-append,
  take-append-drop, All, All-append, All-split, Str, str, same, same_iff, same_refl, same_ne,
  member, append_left_cancel, has_prefix, has_prefix-append, Dict, lookup, insert, copy_into, IsMap,
  insert-IsMap, or_else, lookup-copy_into, lookup-insert, lookup-insert_self, lookup-insert_ne,
  value_of, Returns, Returns-some, Result, ok, fail, Result-cases,
}

-- The buffer of a channel.
abbrev pub capacity : ℕ
capacity = 16

pub record Pipe (A B : Type 0) : Type 0 where
  pub reqs : List A
  pub resps : List B
  -- the once of CloseSend; the channel of requests is closed
  pub close_sent : Bool
  -- the handler has returned; the channel of answers is closed, and `err` is set
  pub done : Bool
  pub err : Option Str
  pub cancelled : Bool

-- `spawnStream`.
abbrev pub new_pipe : {A B : Type 0} → Pipe A B
new_pipe = record {
  reqs = [];
  resps = [];
  close_sent = false;
  done = false;
  err = none;
  cancelled = false;
}

-- What a call did; the two fails are the context's error, and an end with no error is io.EOF.
pub data Event (A B : Type 0) : Type 0 where
  client_sends : A → Event A B
  client_receives : B → Event A B
  client_ends : Option Str → Event A B
  client_fails : Event A B
  closes_send : Event A B
  server_sends : B → Event A B
  server_receives : A → Event A B
  server_ends : Event A B
  server_fails : Event A B
  returns : Option Str → Event A B
  cancels : Event A B

pub data Step {A B : Type 0} : Pipe A B → Event A B → Pipe A B → Type 0 where
  client_send :
      (p : Pipe A B) (a : A)
      → p.close_sent ≡ false
      → length p.reqs < capacity
      → Step p (client_sends a) (record p { reqs = p.reqs ++ (a ∷ []) })
  client_recv :
      (p : Pipe A B) (b : B) (bs : List B)
      → p.resps ≡ b ∷ bs
      → Step p (client_receives b) (record p { resps = bs })
  client_end : (p : Pipe A B) → p.resps ≡ [] → p.done ≡ true → Step p (client_ends p.err) p
  client_fail : (p : Pipe A B) → p.cancelled ≡ true → Step p client_fails p
  close_send : (p : Pipe A B) → Step p closes_send (record p { close_sent = true })
  server_send :
      (p : Pipe A B) (b : B)
      → p.done ≡ false
      → length p.resps < capacity
      → Step p (server_sends b) (record p { resps = p.resps ++ (b ∷ []) })
  server_recv :
      (p : Pipe A B) (a : A) (as_ : List A)
      → p.reqs ≡ a ∷ as_
      → Step p (server_receives a) (record p { reqs = as_ })
  server_end : (p : Pipe A B) → p.reqs ≡ [] → p.close_sent ≡ true → Step p server_ends p
  server_fail : (p : Pipe A B) → p.cancelled ≡ true → Step p server_fails p
  return :
      (p : Pipe A B) (e : Option Str)
      → p.done ≡ false
      → Step p (returns e) (record p { done = true; err = e })
  cancel : (p : Pipe A B) → Step p cancels (record p { cancelled = true })

pub data Run {A B : Type 0} : Pipe A B → List (Event A B) → Pipe A B → Type 0 where
  stop : (p : Pipe A B) → Run p [] p
  go :
      {p q r : Pipe A B} {e : Event A B} {es : List (Event A B)}
      → Step p e q
      → Run q es r
      → Run p (e ∷ es) r
