-- ===== src/Logs/Pump/Whole.antt =====
-- The whole run of a pump, from its start to the error that its source gives at the end.
use nanokube.Prelude.{
  ℕ, suc, ◌+◌, ◌≤◌, ◌<◌, ◌≡◌, refl, sym, ap, ◌∙◌, Bool, true, false, Option, none, some, List, [],
  ◌∷◌, ◌++◌, arith, length, length-append, All, All-append, Str,
}
use mathlib.Core.List.{append_assoc, append-nil, flatten}
use nanokube.Logs.Lines.{index_byte}
use nanokube.Logs.Stream.{LogStream, stop}
use nanokube.Logs.Pump.{StreamType, tap_of, cut_at, drain_chunk, Read, pump, max_line_bytes}
use nanokube.Logs.Pump.Drain.{
  IsHealthy, wrote, drain-Drains, Drains-flatten, Drains-stuck, Drains-IsLine, wrote-disk,
  wrote-append, IsLine, cut_at-none,
}

abbrev pub chunks : List Read → Str
chunks [] = []
chunks (r ∷ rs) = r.chunk ++ chunks rs

-- What one chunk, and any number of them, does to the buffer and the stream.
record Ran (fin : LogStream → LogStream) (more : Bool) (cap n : ℕ) (which : StreamType) (buf : Str)
    (s : LogStream) (input : Str) (res : Option (Str × LogStream × Bool)) : Type 0 where
  ls : List Str
  left : Str
  result : res ≡ some (left, fin (wrote which s ls), more)
  kept : flatten ls ++ left ≡ buf ++ input
  are_lines : All (λ l. IsLine cap l × (length l < cap + n)) ls
  stuck : cut_at cap left ≡ none
  healthy : IsHealthy (tap_of which (wrote which s ls))

module _ (cap n : ℕ) (which : StreamType) (pos : 0 < cap) where
  drain_chunk-Ran :
      (chunk buf : Str) (s : LogStream)
      → cut_at cap buf ≡ none
      → IsHealthy (tap_of which s)
      → length chunk ≤ n
      → Ran (λ t. t) true cap n which buf s chunk (drain_chunk cap which buf chunk s)
  unfolding wrote flatten
  drain_chunk-Ran [] buf s e ok h = record {
    ls = [];
    left = buf;
    result = refl;
    kept = sym (append-nil buf);
    are_lines = tt;
    stuck = e;
    healthy = ok;
  }
  drain_chunk-Ran (c ∷ cs) buf s e ok h =
      let (ls, left, d, run, ok') =
        drain-Drains (suc (length (buf ++ (c ∷ cs)))) cap which (buf ++ (c ∷ cs)) s pos
          (omega arith) ok in
      record {
        ls = ls;
        left = left;
        result = run;
        kept = Drains-flatten d;
        are_lines =
            Drains-IsLine pos d
              (omega (arith, length-append buf (c ∷ cs), (cut_at-none cap buf e).1));
        stuck = Drains-stuck d;
        healthy = ok';
      }

  -- A read that is no error.
  abbrev pub IsFine : Read → Type 0
  IsFine r = (r.fails ≡ false) × (length r.chunk ≤ n)

flatten-append : (ls ms : List Str) → flatten (ls ++ ms) ≡ flatten ls ++ flatten ms
unfolding flatten
flatten-append [] ms = refl
flatten-append (l ∷ ls) ms =
    ap (◌++◌ l) (flatten-append ls ms) ∙ sym (append_assoc l (flatten ls) (flatten ms))

module _ (cap n : ℕ) (which : StreamType) (pos : 0 < cap) where
  -- Two stretches of input, one behind the other.
  Ran-trans :
      {fin : LogStream → LogStream} {more : Bool} {buf a b : Str} {s : LogStream}
      {res res' : Option (Str × LogStream × Bool)} (x : Ran (λ t. t) true cap n which buf s a res)
      → Ran fin more cap n which x.left (wrote which s x.ls) b res'
      → Ran fin more cap n which buf s (a ++ b) res'
  Ran-trans {buf} {a} {b} {s} x y = record {
    ls = x.ls ++ y.ls;
    left = y.left;
    result = y.result ∙ rw (wrote-append which s x.ls y.ls) refl;
    kept =
        rw (flatten-append x.ls y.ls, append_assoc (flatten x.ls) (flatten y.ls) y.left, y.kept)
          (sym (append_assoc (flatten x.ls) x.left b)
            ∙ ap (λ t. t ++ b) x.kept
            ∙ append_assoc buf a b);
    are_lines = All-append _ x.ls y.ls x.are_lines y.are_lines;
    stuck = y.stuck;
    healthy = rw (wrote-append which s x.ls y.ls) y.healthy;
  }

  pump-Ran :
      (rs : List Read) (last : Read) (buf : Str) (s : LogStream)
      → cut_at cap buf ≡ none
      → IsHealthy (tap_of which s)
      → All (IsFine cap n which pos) rs
      → last.fails ≡ true
      → length last.chunk ≤ n
      → Ran stop false cap n which buf s
          (chunks (rs ++ last ∷ []))
          (pump cap which buf s (rs ++ last ∷ []))
  unfolding pump
  pump-Ran [] last buf s e ok h f l =
      let x = drain_chunk-Ran cap n which pos last.chunk buf s e ok l in
      rw (x.result, pump)
        (rw (f, pump)
          (record {
            ls = x.ls;
            left = x.left;
            result = refl;
            kept = x.kept ∙ ap (◌++◌ buf) (sym (append-nil last.chunk));
            are_lines = x.are_lines;
            stuck = x.stuck;
            healthy = x.healthy;
          }))
  pump-Ran (r ∷ rs) last buf s e ok h f l =
      let x = drain_chunk-Ran cap n which pos r.chunk buf s e ok h.0.1 in
      let y = pump-Ran rs last x.left (wrote which s x.ls) x.stuck x.healthy h.1 f l in
      rw (x.result, pump) (rw (h.0.0, pump) (Ran-trans x y))

stop-disk : (s : LogStream) → (stop s).disk ≡ s.disk
unfolding stop
stop-disk s = ground arith

-- A pump reads chunks of at most `n` bytes until an error comes, and its tap refuses nothing. Then
-- it returns with the stream stopped; what it appended to the open log file is a list of lines,
-- each ended by its only newline or as long as the limit, and shorter than limit plus chunk; and
-- those lines with what stays in the buffer are all that was read. What stays has no newline and
-- is shorter than the limit: it is never written.
pub pump_whole :
    (n : ℕ) (which : StreamType) (s : LogStream) (rs : List Read) (last : Read)
    → s.log_file ≡ true
    → IsHealthy (tap_of which s)
    → All (λ r. (r.fails ≡ false) × (length r.chunk ≤ n)) rs
    → last.fails ≡ true
    → length last.chunk ≤ n
    → (ls : List Str) × (left : Str) × (t : LogStream) × (pump max_line_bytes which [] s
          (rs ++ last ∷ [])
        ≡ some (left, stop t, false))
      × ((stop t).disk ≡ s.disk ++ flatten ls)
      × (flatten ls ++ left ≡ chunks (rs ++ last ∷ []))
      × All (λ l. IsLine max_line_bytes l × (length l < max_line_bytes + n)) ls
      × (index_byte left ≡ none)
      × (length left < max_line_bytes)
unfolding cut_at index_byte
pump_whole n which s rs last file ok h f l =
    let pos : 0 < max_line_bytes = omega arith in
    let x = pump-Ran max_line_bytes n which pos rs last [] s refl ok h f l in
    let (no_newline, small) = cut_at-none max_line_bytes x.left x.stuck in
    (
      x.ls,
      x.left,
      wrote which s x.ls,
      x.result,
      stop-disk _ ∙ wrote-disk which s x.ls file,
      x.kept,
      x.are_lines,
      no_newline,
      small,
    )
