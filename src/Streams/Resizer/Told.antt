-- ===== src/Streams/Resizer/Told.antt =====
-- The handler of a resizer knows its size.
use nanokube.Prelude.{ℕ, ◌≡◌, refl, ap, ◌∙◌, Option, none, some, List, [], ◌∷◌}
use nanokube.Streams.Resizer.{
  Size, Resizer, new_resizer, call, update, replay, with_handler, Signal, sized, queue_closed,
  timed_out, context_done, prime, follow, Event, updates, handles, finishes, step, history,
}

abbrev pub last_call : List (ℕ × Size) → Option (ℕ × Size)
last_call [] = none
last_call (c ∷ cs) = some c

record Inv (r : Resizer) : Type 0 where
  known : {s : Size} → r.console_size ≡ some s → r.terminal_size ≡ s
  told :
      {h : ℕ} {s : Size}
      → r.handler ≡ some h
      → r.console_size ≡ some s
      → last_call r.calls ≡ some (h, s)

call-some :
    (o : Option ℕ) (s : Size) (cs : List (ℕ × Size)) {h : ℕ}
    → o ≡ some h
    → last_call (call o s cs) ≡ some (h, s)
call-some none s cs e = cc
call-some (some k) s cs e = cc

replay-some :
    (o : Option ℕ) (c : Option Size) (last : Size) (cs : List (ℕ × Size)) {h : ℕ} {s : Size}
    → o ≡ some h
    → c ≡ some s
    → last_call (replay o c last cs) ≡ some (h, last)
replay-some o none last cs e k = cc
replay-some o (some x) last cs e k = call-some o last cs e

step-Inv : (e : Event) (r : Resizer) → Inv r → Inv (step e r)
unfolding step update with_handler
step-Inv (updates x) r v = record {
  known = λ k. cc;
  told = λ {h} {s} e k. call-some r.handler x r.calls e ∙ cc (k);
}
step-Inv (handles o) r v = record {
  known = λ k. v.known k;
  told = λ {h} {s} e k.
      replay-some o r.console_size r.terminal_size r.calls e k ∙ ap (λ t. some (h, t)) (v.known k);
}
step-Inv finishes r v = record { known = λ k. v.known k; told = λ e k. v.told e k }

history-Inv : (es : List Event) (r : Resizer) → Inv r → Inv (history es r)
unfolding history
history-Inv [] r v = v
history-Inv (e ∷ es) r v = history-Inv es (step e r) (step-Inv e r v)

-- After any updates and any changes of the handler, in any order, if there is a handler and a size,
-- then the last call of all was of this handler with this size, which is the terminal's too.
history-last_call :
    (es : List Event) {h : ℕ} {s : Size}
    → (history es new_resizer).handler ≡ some h
    → (history es new_resizer).console_size ≡ some s
    → (last_call (history es new_resizer).calls ≡ some (h, s))
      × ((history es new_resizer).terminal_size ≡ s)
unfolding new_resizer
history-last_call es e k =
    let v = history-Inv es new_resizer (record { known = λ q. cc; told = λ p q. cc }) in
    (v.told e k, v.known k)

-- The updates that the goroutine makes of the signals, up to the one that ends it.
abbrev pub heard : List Signal → List Event
heard [] = []
heard (sized s ∷ ss) = updates s ∷ heard ss
heard (timed_out ∷ ss) = heard ss
heard (_ ∷ ss) = []

follow-heard : (ss : List Signal) (r : Resizer) → follow ss r ≡ history (heard ss) r
unfolding follow history step
follow-heard [] r = refl
follow-heard (sized s ∷ ss) r = follow-heard ss (update s r)
follow-heard (timed_out ∷ ss) r = follow-heard ss r
follow-heard (queue_closed ∷ ss) r = refl
follow-heard (context_done ∷ ss) r = refl

-- What the goroutine of a resizer does with a first size and the signals behind it is the history of
-- the updates up to the signal that ends it.
follow-prime :
    (s : Size) (ss : List Signal) (r : Resizer)
    → follow ss (prime (sized s) r) ≡ history (updates s ∷ heard ss) r
unfolding history step
follow-prime s ss r = follow-heard ss (update s r)
