-- ===== src/Discovery/Retry/Backoff.antt =====
-- What the loop answers, in which rounds, and how long it sleeps.
use nanokube.Prelude.{
  ℕ, zero, suc, ◌+◌, ◌*◌, ◌<◌, ◌≡◌, refl, sym, ap, ◌∙◌, subst, ◌↔◌, ◌⊎◌, inl, inr, Bool, true,
  false, Option, none, some, List, [], ◌∷◌, ◌++◌, arith, ◌==◌, Bool-cases, length, All, Str, str,
  same,
}
use mathlib.Core.List.{append-nil}
use nanokube.Discovery.Retry.{
  Answer, answered, failed, Ready, context_done, timer_fires, Await, await, woken, Round, Outcome,
  returns, fails, at_work, Parsers, second, wrap, retry_after, longer, sleeps, unless_done, turn_of,
  do_from, do_request,
}

-- The service asks to try again, or cannot be reached.
abbrev pub is_retried : Answer → Bool
is_retried (answered resp) = resp.status == 429
is_retried (failed e) = true

-- The request can be sent again, and has to be.
pub record IsRetried (r : Round) : Type 0 where
  pub rewound : r.rewind ≡ none
  pub retried : is_retried r.answer ≡ true

-- The round is tried again, with the context still open as the loop looks at it, and the timer is
-- the first to be ready.
pub record SleepsOn (r : Round) : Type 0 where
  pub again : IsRetried r
  pub alive : r.cause ≡ none
  pub fired : (rest : List Ready) × (r.waits ≡ timer_fires ∷ rest)

-- Nothing is ready yet, or the context was done first.
abbrev pub IsAsleep : List Ready → Type 0
IsAsleep ws = (ws ≡ []) ⊎ ((rest : List Ready) × (ws ≡ context_done ∷ rest))

-- The round with which the loop comes to an outcome.
abbrev pub Ended : Outcome → Round → Type 0
Ended (returns resp) r =
    (r.rewind ≡ none) × (r.answer ≡ answered resp) × ((resp.status == 429) ≡ false)
Ended (fails why) r =
    ((e : Str) × (r.rewind ≡ some e) × (why ≡ str "rewind body: " ++ e))
    ⊎ (IsRetried r × (r.cause ≡ some why))
Ended at_work r = IsRetried r × (r.cause ≡ none) × IsAsleep r.waits

-- An outcome of the loop on these rounds: it has slept over all of them, or over those before the
-- one with which it ends.
abbrev pub Explained : Outcome → List Round → Type 0
Explained o rs =
    (All SleepsOn rs × (o ≡ at_work))
    ⊎ ((before : List Round) × (r : Round) × (after : List Round) × (rs ≡ before ++ r ∷ after)
        × All SleepsOn before
        × Ended o r)

-- A goroutine that is over leaves its channel as it is.
await-over :
    (b : Bool) (es : List Ready)
    → await (record { over = true; closed = b }) es ≡ record { over = true; closed = b }
unfolding await
await-over b [] = refl
await-over b (e ∷ es) = await-over b es

woken-timer_fires : (es : List Ready) → woken (timer_fires ∷ es) ≡ true
unfolding await
woken-timer_fires es = ap (λ (a : Await). a.closed) (await-over true es)

woken-IsAsleep : (ws : List Ready) → IsAsleep ws → woken ws ≡ false
unfolding await
woken-IsAsleep ws (inl e) = rw e refl
woken-IsAsleep ws (inr (rest, e)) = rw e (ap (λ (a : Await). a.closed) (await-over false rest))

turn_of-IsRetried :
    (p : Parsers) (sleep : ℕ) (a : Answer) (cause : Option Str)
    → is_retried a ≡ true
    → (s : ℕ) × (turn_of p sleep none a cause ≡ unless_done cause s)
turn_of-IsRetried p sleep (failed e) cause h = (sleep, refl)
turn_of-IsRetried p sleep (answered resp) cause h =
    (longer sleep (retry_after p resp.retry_after), rw h refl)

do_from-SleepsOn :
    (p : Parsers) (sleep : ℕ) (r : Round) (rs : List Round)
    → SleepsOn r
    → (s : ℕ) × ((do_from p sleep (r ∷ rs)).0 ≡ (do_from p s rs).0)
unfolding do_from
do_from-SleepsOn p sleep r rs h =
    let (s, e) = turn_of-IsRetried p sleep r.answer none h.again.retried in
    let (rest, first) = h.fired in
    let up : woken r.waits ≡ true = ap woken first ∙ woken-timer_fires rest in
    (wrap (s + second), rw (h.again.rewound, h.alive, up, e) refl)

do_from-skip :
    (p : Parsers) (o : Outcome) (rs later : List Round) (sleep : ℕ)
    → All SleepsOn rs
    → ((s : ℕ) → (do_from p s later).0 ≡ o)
    → (do_from p sleep (rs ++ later)).0 ≡ o
do_from-skip p o [] later sleep h f = f sleep
do_from-skip p o (r ∷ rs) later sleep h f =
    let (s, e) = do_from-SleepsOn p sleep r (rs ++ later) h.0 in
    e ∙ do_from-skip p o rs later s h.1 f

-- A round that ends the loop does so behind any sleep.
do_from-Ended :
    (p : Parsers) (o : Outcome) (r : Round) (after : List Round) (s : ℕ)
    → Ended o r
    → (do_from p s (r ∷ after)).0 ≡ o
unfolding do_from
do_from-Ended p (returns resp) r after s (rewound, told, fine) = rw (rewound, told, fine) refl
do_from-Ended p (fails why) r after s (inl (e, broken, told)) = rw broken (sym (ap fails told))
do_from-Ended p (fails why) r after s (inr (again, ended)) =
    let (n, t) = turn_of-IsRetried p s r.answer (some why) again.retried in
    rw (again.rewound, ended, t) refl
do_from-Ended p at_work r after s (again, alive, asleep) =
    let (n, t) = turn_of-IsRetried p s r.answer none again.retried in
    rw (again.rewound, alive, t, woken-IsAsleep r.waits asleep) refl

-- A round ends the loop, or is tried again.
turn_of-cases : (p : Parsers) (sleep : ℕ) (r : Round) → ((o : Outcome) × Ended o r) ⊎ SleepsOn r
turn_of-cases p sleep r = by_rewind r.rewind refl
  where
    by_waits :
        IsRetried r
        → r.cause ≡ none
        → (ws : List Ready) → r.waits ≡ ws
        → ((o : Outcome) × Ended o r) ⊎ SleepsOn r
    by_waits again alive [] e = inl (at_work, (again, alive, inl e))
    by_waits again alive (context_done ∷ rest) e = inl (at_work, (again, alive, inr (rest, e)))
    by_waits again alive (timer_fires ∷ rest) e =
        inr (record { again = again; alive = alive; fired = (rest, e) })

    by_cause :
        IsRetried r → (c : Option Str) → r.cause ≡ c → ((o : Outcome) × Ended o r) ⊎ SleepsOn r
    by_cause again none e = by_waits again e r.waits refl
    by_cause again (some why) e = inl (fails why, inr (again, e))

    by_answer :
        r.rewind ≡ none → (a : Answer) → r.answer ≡ a → ((o : Outcome) × Ended o r) ⊎ SleepsOn r
    by_answer rewound (failed x) e =
        by_cause (record { rewound = rewound; retried = ap is_retried e }) r.cause refl
    by_answer rewound (answered resp) e = elim (Bool-cases (resp.status == 429)) [
      | inl limited ↦
          by_cause (record { rewound = rewound; retried = ap is_retried e ∙ limited }) r.cause refl
      | inr fine ↦ inl (returns resp, (rewound, e, fine))
    ]

    by_rewind : (w : Option Str) → r.rewind ≡ w → ((o : Outcome) × Ended o r) ⊎ SleepsOn r
    by_rewind none e = by_answer e r.answer refl
    by_rewind (some x) e = inl (fails (str "rewind body: " ++ x), inl (x, e, refl))

Explained-later :
    (o : Outcome) (r : Round) (rs : List Round) → SleepsOn r → Explained o rs → Explained o (r ∷ rs)
Explained-later o r rs slept (inl (all, e)) = inl ((slept, all), e)
Explained-later o r rs slept (inr (before, x, after, e, all, ended)) =
    inr (r ∷ before, x, after, ap (◌∷◌ r) e, (slept, all), ended)

do_from-Explained :
    (p : Parsers) (sleep : ℕ) (rs : List Round) → Explained (do_from p sleep rs).0 rs
unfolding do_from
do_from-Explained p sleep [] = inl (tt, refl)
do_from-Explained p sleep (r ∷ rs) = elim (turn_of-cases p sleep r) [
  | inl (o, ended) ↦
      inr (
        [],
        r,
        rs,
        refl,
        tt,
        subst (λ x. Ended x r) (sym (do_from-Ended p o r rs sleep ended)) ended,
      )
  | inr slept ↦
      let (s, e) = do_from-SleepsOn p sleep r rs slept in
      subst (λ x. Explained x (r ∷ rs)) (sym e)
        (Explained-later (do_from p s rs).0 r rs slept (do_from-Explained p s rs))
]

-- What the loop comes to, on any rounds, in both directions. Behind rounds that were all tried again
-- with the context open, and whose timers were the first to be ready: it returns exactly the answer
-- of a round that is no rate limit; it fails exactly where the body cannot be rewound, with that
-- error, or where a round that has to be tried again finds the context done, with its cause; and it
-- is still at work where the rounds end, or where a sleep sees nothing ready yet or sees the context
-- done first. In the last case that holds whatever becomes ready later: nothing wakes it.
pub do_request-Explained :
    (p : Parsers) (rs : List Round) (o : Outcome) → ((do_request p rs).0 ≡ o) ↔ Explained o rs
unfolding do_from
do_request-Explained p rs o =
    (λ e. subst (λ x. Explained x rs) e (do_from-Explained p 0 rs), λ h. explained h)
  where
    explained : Explained o rs → (do_request p rs).0 ≡ o
    explained (inl (all, e)) =
        ap (λ xs. (do_request p xs).0) (sym (append-nil rs))
        ∙ do_from-skip p at_work rs [] 0 all (λ s. refl)
        ∙ sym e
    explained (inr (before, r, after, e, all, ended)) =
        ap (λ xs. (do_request p xs).0) e
        ∙ do_from-skip p o before (r ∷ after) 0 all (λ s. do_from-Ended p o r after s ended)

-- One second, two seconds, and so on.
unfoldable pub linear : ℕ → ℕ → List ℕ
linear k zero = []
linear k (suc n) = ((k + 1) * second) ∷ linear (k + 1) n

-- The service does not say when to try again.
abbrev pub IsPlain : Answer → Type 0
IsPlain (answered resp) = resp.retry_after ≡ []
IsPlain (failed e) = Unit

plain_turn :
    (p : Parsers) (k : ℕ) (a : Answer)
    → is_retried a ≡ true
    → IsPlain a
    → k + 1 < 9223372036
    → turn_of p (k * second) none a none ≡ sleeps ((k + 1) * second)
unfolding retry_after same
plain_turn p k (failed e) h plain small = ap sleeps (omega arith)
plain_turn p k (answered resp) h plain small =
    let no_wait : longer (k * second) (retry_after p resp.retry_after) ≡ k * second =
      rw plain (ground arith) in
    rw (h, no_wait) (ap sleeps (omega arith))

-- Behind a sleep of `k` seconds, while each round is tried again and the service does not say when,
-- the sleeps are k + 1 seconds, k + 2 seconds and so on, as long as they fit in 64 bits.
do_from-linear :
    (p : Parsers) (rs : List Round) (k : ℕ)
    → All SleepsOn rs
    → All (λ r. IsPlain r.answer) rs
    → k + length rs < 9223372036
    → do_from p (k * second) rs ≡ (at_work, linear k (length rs))
unfolding do_from linear
do_from-linear p [] k h plain small = refl
do_from-linear p (r ∷ rs) k h plain small =
    let t = plain_turn p k r.answer h.0.again.retried plain.0 (omega arith) in
    let ih = do_from-linear p rs (k + 1) h.1 plain.1 (omega arith) in
    let (rest, first) = h.0.fired in
    let up : woken r.waits ≡ true = ap woken first ∙ woken-timer_fires rest in
    rw (h.0.again.rewound, h.0.alive, up, t, ih) refl
