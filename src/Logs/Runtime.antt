-- ===== src/Logs/Runtime.antt =====
-- The log source that LogStream of pkg/driver/docker/docker.go makes: it takes the runtime's frames
-- apart into a text for stdout and one for stderr, and writes their whole lines in the CRI form to
-- the two pipes that the pumps read.
pub mod Flush
pub mod Whole
use nanokube.Prelude.{
  ℕ, zero, suc, ◌+◌, ◌-◌, ◌*◌, ◌/◌, ◌%◌, ◌^◌, ◌≤◌, ◌<◌, ◌≡◌, refl, sym, ap, ◌∙◌, subst, ◌≢◌, ◌↔◌,
  ◌⊎◌, inl, inr, Bool, true, false, ◌&&◌, ◌||◌, not, Option, none, some, List, [], ◌∷◌, ◌++◌, map,
  arith, ltb, leb, ◌==◌, if◌then◌else◌, ltb→lt, lt→ltb, leb→le, ==_iff, Bool-cases, Option-cases,
  length, take, drop, length-append, length-drop, length-take, take-append, drop-append,
  take-append-drop, All, All-append, Str, str, same, same_iff, same_refl, same_ne,
  append_left_cancel, has_prefix, has_prefix-append, Dict, lookup, insert, copy_into, lookup-insert,
  lookup-insert_self, lookup-insert_ne, value_of, Returns, Returns-some,
}
use nanokube.Logs.Lines.{index_byte}
use nanokube.Logs.Pump.{StreamType, of_stdout, of_stderr}
use nanokube.Streams.Frames.{Reader, full, short, read_full, frame_size, frame_type}

-- `strings.Cut(s, " ")`.
unfoldable pub cut_space : Str → Option (Str × Str)
cut_space [] = none
cut_space (c ∷ cs) =
    let later = cut_space cs in
    if c == b' '
    then some ([], cs)
    else elim later [ none ↦ none | some (before, after) ↦ some (c ∷ before, after) ]

-- `strings.HasSuffix(msg, "\n")`.
unfoldable pub ends_line : Str → Bool
ends_line [] = false
ends_line (c ∷ []) = c == b'\n'
ends_line (c ∷ d ∷ cs) = ends_line (d ∷ cs)

abbrev pub type_name : StreamType → Str
type_name of_stdout = str "stdout"
type_name of_stderr = str "stderr"

-- The two pipes.
pub record Pipes : Type 0 where
  pub stdout : Str
  pub stderr : Str

abbrev pub put : StreamType → Str → Pipes → Pipes
put of_stdout t w = record w { stdout = w.stdout ++ t }
put of_stderr t w = record w { stderr = w.stderr ++ t }

-- Whether `time.Parse(time.RFC3339Nano, _)` takes a text, and what the clock says as a line is
-- written.
pub record Clock : Type 0 where
  pub is_time : Str → Bool
  pub now : Pipes → Str

-- `"%s %s F %s"`.
abbrev pub cri_line : StreamType → Str → Str → Str
cri_line which ts msg = ts ++ (str " " ++ (type_name which ++ (str " F " ++ msg)))

abbrev pub with_newline : Str → Str
with_newline msg = if ends_line msg then msg else msg ++ (b'\n' ∷ [])

-- The line as it is written: the runtime's stamp if it has one, the clock's if not.
unfoldable pub stamp : Clock → Pipes → StreamType → Str → Str
stamp k w which line = elim (cut_space line) [
  | none ↦ cri_line which (k.now w) (with_newline line)
  | some (before, after) ↦
      if k.is_time before
      then cri_line which before (with_newline after)
      else cri_line which (k.now w) (with_newline line)
]

-- `flush`, on fuel: what stays in the accumulator, and the pipes. Their writes succeed here.
unfoldable pub flush : ℕ → Clock → StreamType → Str → Pipes → Option (Str × Pipes)
flush zero k which accum w = none
flush (suc fuel) k which accum w = elim (index_byte accum) [
  | none ↦ some (accum, w)
  | some i ↦
      flush fuel k which (drop (suc i) accum) (put which (stamp k w which (take (suc i) accum)) w)
]

-- The accumulators and the pipes.
pub record Source : Type 0 where
  pub stdout_buf : Str
  pub stderr_buf : Str
  pub pipes : Pipes

-- One payload goes behind its accumulator, which is flushed.
unfoldable pub accept : Clock → ℕ → Str → Source → Option Source
accept k kind payload s =
    if kind == 2
    then elim (flush (suc (length (s.stderr_buf ++ payload))) k of_stderr (s.stderr_buf ++ payload)
        s.pipes) [ none ↦ none | some (left, w) ↦ some (record s { stderr_buf = left; pipes = w }) ]
    else elim (flush (suc (length (s.stdout_buf ++ payload))) k of_stdout (s.stdout_buf ++ payload)
        s.pipes) [ none ↦ none | some (left, w) ↦ some (record s { stdout_buf = left; pipes = w }) ]

-- The loop over frames, on fuel; it returns at the first read that fails.
unfoldable pub demux_logs : ℕ → Clock → Reader → Source → Option Source
demux_logs zero k r s = none
demux_logs (suc fuel) k r s = elim (read_full 8 r) [
  | short e ↦ some s
  | full hdr r' ↦ elim (frame_size hdr == 0) [
    | true ↦ demux_logs fuel k r' s
    | false ↦ elim (read_full (frame_size hdr) r') [
      | short e ↦ some s
      | full payload r'' ↦ elim (accept k (frame_type hdr) payload s) [
        | none ↦ none
        | some s' ↦ demux_logs fuel k r'' s'
      ]
    ]
  ]
]

abbrev pub new_source : Source
new_source = record {
  stdout_buf = [];
  stderr_buf = [];
  pipes = record { stdout = []; stderr = [] };
}

-- The goroutine, from its start.
unfoldable pub log_source : Clock → Reader → Option Source
log_source k r = demux_logs (suc (length r.bytes)) k r new_source
