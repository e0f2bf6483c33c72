-- ===== src/Logs/Pump.antt =====
-- `pump` of LogStreamImpl (pkg/nanokube/log.go): it reads chunks, takes the lines off its buffer
-- and writes each to the log file and to its tap. A write to the log file always succeeds here;
-- the source logs a failure and goes on.
pub mod Drain
pub mod Whole
use nanokube.Prelude.{
  ℕ, zero, suc, ◌+◌, ◌-◌, ◌*◌, ◌/◌, ◌%◌, ◌^◌, ◌≤◌, ◌<◌, ◌≡◌, refl, sym, ap, ◌∙◌, subst, ◌≢◌, ◌↔◌,
  ◌⊎◌, inl, inr, Bool, true, false, ◌&&◌, ◌||◌, not, Option, none, some, List, [], ◌∷◌, ◌++◌, map,
  arith, ltb, leb, ◌==◌, if◌then◌else◌, ltb→lt, lt→ltb, leb→le, ==_iff, Bool-cases, Option-cases,
  length, take, drop, length-append, length-drop, length-take, take-append, drop-append,
  take-append-drop, All, All-append, Str, str, same, same_iff, same_refl, same_ne,
  append_left_cancel, has_prefix, has_prefix-append, Dict, lookup, insert, copy_into, lookup-insert,
  lookup-insert_self, lookup-insert_ne, value_of, Returns, Returns-some,
}
use nanokube.Logs.Lines.{index_byte}
use nanokube.Logs.Stream.{Tap, tap_write, LogStream, stop}

abbrev pub max_line_bytes : ℕ
max_line_bytes = 64 * 1024

-- Which of the two pumps.
pub data StreamType : Type 0 where
  of_stdout of_stderr : StreamType

abbrev pub tap_of : StreamType → LogStream → Tap
tap_of of_stdout s = s.stdout
tap_of of_stderr s = s.stderr

abbrev pub set_tap : StreamType → Tap → LogStream → LogStream
set_tap of_stdout t s = record s { stdout = t }
set_tap of_stderr t s = record s { stderr = t }

-- The write of one line, with whether the tap took it.
unfoldable pub write_line : StreamType → LogStream → Str → LogStream × Bool
write_line which s line =
    let filed = if s.log_file then record s { disk = s.disk ++ line } else s in
    let (t, fine) = tap_write (tap_of which s) line in (set_tap which t filed, fine)

-- Where the next line ends; a buffer of `cap` bytes with no newline is a line.
unfoldable pub cut_at : ℕ → Str → Option ℕ
cut_at cap buf = elim (index_byte buf) [
  | some i ↦ some i
  | none ↦ if ltb (length buf) cap then none else some (length buf - 1)
]

-- The inner loop, on fuel: what stays in the buffer, and whether the pump goes on.
unfoldable pub drain : ℕ → ℕ → StreamType → Str → LogStream → Option (Str × LogStream × Bool)
drain zero cap which buf s = none
drain (suc fuel) cap which buf s = elim (cut_at cap buf) [
  | none ↦ some (buf, s, true)
  | some i ↦
      let (s', fine) = write_line which s (take (suc i) buf) in
      elim fine [
        | true ↦ drain fuel cap which (drop (suc i) buf) s'
        | false ↦ some (drop (suc i) buf, s', false)
      ]
]

-- One `src.Read`: the bytes that came, and whether an error came with them.
pub record Read : Type 0 where
  pub chunk : Str
  pub fails : Bool

abbrev pub drain_chunk : ℕ → StreamType → Str → Str → LogStream → Option (Str × LogStream × Bool)
drain_chunk cap which buf [] s = some (buf, s, true)
drain_chunk cap which buf (c ∷ cs) s =
    drain (suc (length (buf ++ (c ∷ cs)))) cap which (buf ++ (c ∷ cs)) s

-- The outer loop over the reads so far; a pump that returns stops the stream.
unfoldable pub pump : ℕ → StreamType → Str → LogStream → List Read → Option (Str × LogStream × Bool)
pump cap which buf s [] = some (buf, s, true)
pump cap which buf s (r ∷ rs) = elim (drain_chunk cap which buf r.chunk s) [
  | none ↦ none
  | some (buf', s', fine) ↦ elim fine [
    | false ↦ some (buf', stop s', false)
    | true ↦ elim r.fails [ true ↦ some (buf', stop s', false) | false ↦ pump cap which buf' s' rs ]
  ]
]
