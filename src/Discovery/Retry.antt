-- ===== src/Discovery/Retry.antt =====
-- `do`, `await` and `retryAfter` of pkg/discovery/discovery.go. Durations are 64-bit numbers of
-- nanoseconds in two's complement. What the service and the context do in each turn of the loop is
-- a list of rounds; a loop that waits when its round is over, or that is not over when the list
-- ends, is still at work.
pub mod Backoff
use nanokube.Prelude.{
  ℕ, zero, suc, ◌+◌, ◌-◌, ◌*◌, ◌/◌, ◌%◌, ◌^◌, ◌≤◌, ◌<◌, ◌≡◌, refl, sym, ap, ◌∙◌, subst, ◌≢◌, ◌↔◌,
  ◌⊎◌, inl, inr, Bool, true, false, ◌&&◌, ◌||◌, not, Option, none, some, List, [], ◌∷◌, ◌++◌, map,
  arith, ltb, leb, ◌==◌, if◌then◌else◌, ltb→lt, lt→ltb, leb→le, ==_iff, Bool-cases, Option-cases,
  length, take, drop, length-append, length-drop, length-take, take-append, drop-append,
  take-append-drop, All, All-append, All-split, Str, str, same, same_iff, same_refl, same_ne,
  append_left_cancel, has_prefix, has_prefix-append, Dict, lookup, insert, copy_into, IsMap,
  insert-IsMap, or_else, lookup-copy_into, lookup-insert, lookup-insert_self, lookup-insert_ne,
  value_of, Returns, Returns-some, Result, ok, fail, Result-cases,
}

pub record Response : Type 0 where
  pub status : ℕ
  pub retry_after : Str
  pub location : Str

pub data Answer : Type 0 where
  answered : Response → Answer
  failed : Str → Answer

-- What the select of `await` can see become ready.
pub data Ready : Type 0 where
  context_done timer_fires : Ready

-- The goroutine of `await`, which is over behind the case that it takes, and its channel `out`.
pub record Await : Type 0 where
  pub over : Bool
  pub closed : Bool

abbrev pub new_await : Await
new_await = record { over = false; closed = false }

abbrev pub take_case : Await → Ready → Await
take_case a context_done = record a { over = true }
take_case a timer_fires = record { over = true; closed = true }

-- `await`, on what becomes ready in this order.
unfoldable pub await : Await → List Ready → Await
await a [] = a
await a (e ∷ es) = if a.over then await a es else await (take_case a e) es

-- Whether the receive from `out` has an end by then.
abbrev pub woken : List Ready → Bool
woken es = (await new_await es).closed

pub record Round : Type 0 where
  -- the error of GetBody, if there is one
  pub rewind : Option Str
  pub answer : Answer
  -- the cause, if the context is done as the loop asks
  pub cause : Option Str
  -- what becomes ready behind the start of the sleep
  pub waits : List Ready

pub data Outcome : Type 0 where
  returns : Response → Outcome
  fails : Str → Outcome
  at_work : Outcome

-- The library's parsers, with the blanks at the ends trimmed for the first: a 64-bit number, and
-- the nanoseconds until an HTTP date, zero for one that is past.
pub record Parsers : Type 0 where
  pub atoi : Str → Option ℕ
  pub until : Str → Option ℕ

abbrev pub second : ℕ
second = 1000000000

abbrev pub wrap : ℕ → ℕ
wrap n = n % 18446744073709551616

-- `<` of two numbers in two's complement.
abbrev pub signed_lt : ℕ → ℕ → Bool
signed_lt a b = ltb (wrap (a + 9223372036854775808)) (wrap (b + 9223372036854775808))

abbrev pub or_zero : Option ℕ → ℕ
or_zero none = 0
or_zero (some d) = d

abbrev pub in_seconds : Option ℕ → ℕ → ℕ
in_seconds none dated = dated
in_seconds (some secs) dated = wrap (secs * second)

unfoldable pub retry_after : Parsers → Str → ℕ
retry_after p v = if same v [] then 0 else in_seconds (p.atoi v) (or_zero (p.until v))

abbrev pub longer : ℕ → ℕ → ℕ
longer sleep ra = if signed_lt sleep ra then ra else sleep

-- How a turn of the loop goes on.
pub data Turn : Type 0 where
  stops : Outcome → Turn
  sleeps : ℕ → Turn

abbrev pub unless_done : Option Str → ℕ → Turn
unless_done (some cause) sleep = stops (fails cause)
unless_done none sleep = sleeps (wrap (sleep + second))

abbrev pub turn_of : Parsers → ℕ → Option Str → Answer → Option Str → Turn
turn_of p sleep (some e) answer cause = stops (fails (str "rewind body: " ++ e))
turn_of p sleep none (answered resp) cause =
    if resp.status == 429
    then unless_done cause (longer sleep (retry_after p resp.retry_after))
    else stops (returns resp)
turn_of p sleep none (failed e) cause = unless_done cause sleep

-- The end of a turn; `rest` is what comes behind a sleep that is woken from.
abbrev pub go_on : Bool → Turn → (ℕ → Outcome × List ℕ) → Outcome × List ℕ
go_on is_woken (stops o) rest = (o, [])
go_on false (sleeps s) rest = (at_work, s ∷ [])
go_on true (sleeps s) rest = ((rest s).0, s ∷ (rest s).1)

-- The loop from a sleep on, with the sleeps that it makes.
unfoldable pub do_from : Parsers → ℕ → List Round → Outcome × List ℕ
do_from p sleep [] = (at_work, [])
do_from p sleep (r ∷ rs) =
    go_on (woken r.waits) (turn_of p sleep r.rewind r.answer r.cause) (λ s. do_from p s rs)

abbrev pub do_request : Parsers → List Round → Outcome × List ℕ
do_request p rs = do_from p 0 rs
