-- ===== src/Streams/Resizer.antt =====
-- resizerImpl of pkg/nanokube/streams.go: the size of the client's terminal, and the handler that is
-- told of it. A handler is known by a number; the calls of handlers are kept, the last one first.
pub mod Told
use nanokube.Prelude.{
  ℕ, zero, suc, ◌+◌, ◌-◌, ◌*◌, ◌/◌, ◌%◌, ◌^◌, ◌≤◌, ◌<◌, ◌≡◌, refl, sym, ap, ◌∙◌, subst, ◌≢◌, ◌↔◌,
  ◌⊎◌, inl, inr, Bool, true, false, ◌&&◌, ◌||◌, not, Option, none, some, List, [], ◌∷◌, ◌++◌, map,
  arith, ltb, leb, ◌==◌, if◌then◌else◌, ltb→lt, lt→ltb, leb→le, ==_iff, Bool-cases, Option-cases,
  length, take, drop, length-append, length-drop, length-take, take-append, drop-append,
  take-append-drop, All, All-append, All-split, Str, str, same, same_iff, same_refl, same_ne,
  member, append_left_cancel, has_prefix, has_prefix-append, Dict, lookup, insert, copy_into, IsMap,
  insert-IsMap, or_else, lookup-copy_into, lookup-insert, lookup-insert_self, lookup-insert_ne,
  value_of, Returns, Returns-some, Result, ok, fail, Result-cases,
}

pub record Size : Type 0 where
  pub height : ℕ
  pub width : ℕ

pub record Resizer : Type 0 where
  pub terminal_size : Size
  pub console_size : Option Size
  pub handler : Option ℕ
  pub calls : List (ℕ × Size)
  pub cancelled : Bool

unfoldable pub new_resizer : Resizer
new_resizer = record {
  terminal_size = record { height = 0; width = 0 };
  console_size = none;
  handler = none;
  calls = [];
  cancelled = false;
}

abbrev pub call : Option ℕ → Size → List (ℕ × Size) → List (ℕ × Size)
call none s calls = calls
call (some h) s calls = (h, s) ∷ calls

unfoldable pub update : Size → Resizer → Resizer
update s r = record r { terminal_size = s; console_size = some s; calls = call r.handler s r.calls }

-- A size that is known already is told again, the terminal's.
abbrev pub replay : Option ℕ → Option Size → Size → List (ℕ × Size) → List (ℕ × Size)
replay h none last calls = calls
replay h (some s) last calls = call h last calls

unfoldable pub with_handler : Option ℕ → Resizer → Resizer
with_handler h r = record r { handler = h; calls = replay h r.console_size r.terminal_size r.calls }

-- `Done`.
abbrev pub finish : Resizer → Resizer
finish r = record r { cancelled = true }

-- What the goroutine of `Resizer` hears.
pub data Signal : Type 0 where
  sized : Size → Signal
  queue_closed timed_out context_done : Signal

-- The wait for the first size.
abbrev pub prime : Signal → Resizer → Resizer
prime (sized s) r = update s r
prime _ r = r

-- The loop behind it; no time is up there.
unfoldable pub follow : List Signal → Resizer → Resizer
follow [] r = r
follow (sized s ∷ ss) r = follow ss (update s r)
follow (timed_out ∷ ss) r = follow ss r
follow (_ ∷ ss) r = r

-- What happens to a resizer, in any order.
pub data Event : Type 0 where
  updates : Size → Event
  handles : Option ℕ → Event
  finishes : Event

unfoldable pub step : Event → Resizer → Resizer
step (updates s) r = update s r
step (handles h) r = with_handler h r
step finishes r = finish r

unfoldable pub history : List Event → Resizer → Resizer
history [] r = r
history (e ∷ es) r = history es (step e r)
