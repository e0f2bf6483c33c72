-- ===== src/Logs/Runtime/Flush.antt =====
-- One accumulator: flushing it writes its whole lines, in the CRI form.
use nanokube.Prelude.{
  ℕ, zero, suc, ◌<◌, ◌≡◌, refl, sym, ap, ◌∙◌, inl, inr, true, false, none, some, List, [], ◌∷◌,
  ◌++◌, arith, ◌==◌, Bool-cases, Option-cases, length, take, drop, length-drop, All, Str,
}
use mathlib.Core.List.{append_assoc, append-nil}
use nanokube.Logs.Lines.{
  index_byte, lines_from, rest_from, lines, leftover, lines_from-append, rest_from-append,
  lines_from-index_none, lines_from-index_some, index_byte-lt,
}
use nanokube.Logs.Pump.{StreamType, of_stdout, of_stderr}
use nanokube.Logs.Runtime.{cut_space, Pipes, put, Clock, cri_line, with_newline, stamp, flush}

-- The line begins with the runtime's stamp, as it does where the log is read with timestamps.
abbrev pub IsStamped : Clock → Str → Type 0
IsStamped k line =
    (ts : Str) × (msg : Str) × (cut_space line ≡ some (ts, msg)) × (k.is_time ts ≡ true)

-- The line that the runtime sent, with the stream and the tag set in behind its stamp.
unfoldable pub relabel : StreamType → Str → Str
relabel which line = elim (cut_space line) [
  | none ↦ []
  | some (ts, msg) ↦ cri_line which ts (with_newline msg)
]

stamp-relabel :
    (k : Clock) (w : Pipes) (which : StreamType) (line : Str)
    → IsStamped k line
    → stamp k w which line ≡ relabel which line
unfolding stamp relabel
stamp-relabel k w which line (ts, msg, cut, fine) =
    rw (cut, stamp) (rw (cut, relabel) (rw fine refl))

unfoldable pub relabelled : StreamType → List Str → Str
relabelled which [] = []
relabelled which (l ∷ ls) = relabel which l ++ relabelled which ls

pub relabelled-append :
    (which : StreamType) (ls ms : List Str)
    → relabelled which (ls ++ ms) ≡ relabelled which ls ++ relabelled which ms
unfolding relabelled
relabelled-append which [] ms = refl
relabelled-append which (l ∷ ls) ms =
    ap (◌++◌ (relabel which l)) (relabelled-append which ls ms)
    ∙ sym (append_assoc (relabel which l) (relabelled which ls) (relabelled which ms))

put-put :
    (which : StreamType) (a b : Str) (w : Pipes)
    → put which b (put which a w) ≡ put which (a ++ b) w
put-put of_stdout a b w = ground (arith, append_assoc w.stdout a b)
put-put of_stderr a b w = ground (arith, append_assoc w.stderr a b)

put-nil : (which : StreamType) (w : Pipes) → put which [] w ≡ w
put-nil of_stdout w = ground (arith, append-nil w.stdout)
put-nil of_stderr w = ground (arith, append-nil w.stderr)

flush-lines :
    (fuel : ℕ) (k : Clock) (which : StreamType) (accum : Str) (w : Pipes)
    → length accum < fuel
    → All (IsStamped k) (lines accum)
    → flush fuel k which accum w
      ≡ some (leftover accum, put which (relabelled which (lines accum)) w)
unfolding flush relabelled
flush-lines zero k which accum w h st = elim h [ ]
flush-lines (suc fuel) k which accum w h st = elim (Option-cases (index_byte accum)) [
  | inl e ↦
      let (none_whole, all_left) = lines_from-index_none [] accum e in
      rw (e, flush) (rw (none_whole, all_left, relabelled, put-nil which w) refl)
  | inr (i, e) ↦
      let (first, on) = lines_from-index_some [] accum e in
      let line = take (suc i) accum in
      let st' : All (IsStamped k) (line ∷ lines (drop (suc i) accum)) = rw first at st in
      let more =
        flush-lines fuel k which (drop (suc i) accum) (put which (relabel which line) w)
          (omega (arith, length-drop (suc i) accum, index_byte-lt accum e)) st'.1 in
      rw (e, flush)
        (rw (first, on, stamp-relabel k w which line st'.0)
          (more ∙ ap (λ p. some (leftover (drop (suc i) accum), p)) (put-put which _ _ w)))
]

index_byte-concat :
    (acc : Str) (c : ℕ)
    → index_byte acc ≡ none
    → (c == b'\n') ≡ false
    → index_byte (acc ++ (c ∷ [])) ≡ none
unfolding index_byte
index_byte-concat [] c e p = ground arith
index_byte-concat (a ∷ acc) c e p = ground (arith, index_byte-concat acc c)

-- An unfinished line in front of a text without its newline does not change where lines end.
pub lines-pending :
    (acc t : Str)
    → index_byte acc ≡ none
    → (lines (acc ++ t) ≡ lines_from acc t) × (leftover (acc ++ t) ≡ rest_from acc t)
lines-pending acc t e =
    let (whole, left) = lines_from-index_none [] acc e in
    (lines_from-append [] acc t ∙ rw (whole, left) refl, rest_from-append [] acc t ∙ rw left refl)

pub index_byte-rest_from :
    (acc t : Str) → index_byte acc ≡ none → index_byte (rest_from acc t) ≡ none
unfolding rest_from index_byte
index_byte-rest_from acc [] e = e
index_byte-rest_from acc (c ∷ t) e = elim (Bool-cases (c == b'\n')) [
  | inl p ↦ rw p (index_byte-rest_from [] t refl)
  | inr p ↦ rw p (index_byte-rest_from (acc ++ (c ∷ [])) t (index_byte-concat acc c e p))
]

-- A flush of an accumulator that got a text behind its unfinished line.
pub flush-pending :
    (k : Clock) (which : StreamType) (acc t : Str) (w : Pipes)
    → index_byte acc ≡ none
    → All (IsStamped k) (lines_from acc t)
    → flush (suc (length (acc ++ t))) k which (acc ++ t) w
      ≡ some (rest_from acc t, put which (relabelled which (lines_from acc t)) w)
flush-pending k which acc t w e st =
    let (whole, left) = lines-pending acc t e in
    flush-lines (suc (length (acc ++ t))) k which (acc ++ t) w (omega arith) (rw whole st)
    ∙ rw (whole, left) refl
