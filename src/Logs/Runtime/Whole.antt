-- ===== src/Logs/Runtime/Whole.antt =====
-- The whole run of the log source over the frames that the runtime sends.
use nanokube.Prelude.{
  ℕ, zero, suc, ◌<◌, ◌≡◌, refl, sym, ap, ◌∙◌, inl, inr, false, Option, none, some, List, [], ◌∷◌,
  ◌++◌, arith, ◌==◌, if◌then◌else◌, ==_iff, Bool-cases, length, All, All-split, Str,
}
use mathlib.Core.List.{append_assoc, append-nil}
use nanokube.Logs.Lines.{
  index_byte, lines_from, rest_from, lines, leftover, lines_from-append, rest_from-append,
}
use nanokube.Logs.Pump.{StreamType, of_stdout, of_stderr}
use nanokube.Streams.Frames.{
  Error, eof, frame_type, Frame, header_of, encode, Fits, frame_size-header_of, read_full-append,
  read_full-short, length-encode,
}
use nanokube.Streams.Demux.Delivery.{Tail, clean, torn_header, torn_payload}
use nanokube.Logs.Runtime.{Clock, Source, accept, demux_logs, new_source, log_source}
use nanokube.Logs.Runtime.Flush.{
  IsStamped, relabelled, relabelled-append, flush-pending, index_byte-rest_from,
}

-- What one frame says on a stream, and what the frames say on it together.
abbrev pub said : StreamType → Frame → Str
said of_stdout f = if f.kind == 2 then [] else f.payload
said of_stderr f = if f.kind == 2 then f.payload else []

abbrev pub text_of : StreamType → List Frame → Str
text_of which [] = []
text_of which (f ∷ fs) = said which f ++ text_of which fs

-- Both accumulators end in the middle of a line.
abbrev IsPending : Source → Type 0
IsPending s = (index_byte s.stdout_buf ≡ none) × (index_byte s.stderr_buf ≡ none)

-- The source once it has read these texts.
abbrev after : Source → Str → Str → Source
after s out err = record {
  stdout_buf = rest_from s.stdout_buf out;
  stderr_buf = rest_from s.stderr_buf err;
  pipes = record {
    stdout = s.pipes.stdout ++ relabelled of_stdout (lines_from s.stdout_buf out);
    stderr = s.pipes.stderr ++ relabelled of_stderr (lines_from s.stderr_buf err);
  };
}

after-after :
    (s : Source) (out err out' err' : Str)
    → after (after s out err) out' err' ≡ after s (out ++ out') (err ++ err')
after-after s out err out' err' =
    rw
      (
        rest_from-append s.stdout_buf out out',
        rest_from-append s.stderr_buf err err',
        lines_from-append s.stdout_buf out out',
        lines_from-append s.stderr_buf err err',
        relabelled-append of_stdout (lines_from s.stdout_buf out)
            (lines_from (rest_from s.stdout_buf out) out'),
        relabelled-append of_stderr (lines_from s.stderr_buf err)
            (lines_from (rest_from s.stderr_buf err) err'),
      )
      (rw (append_assoc, append_assoc) refl)

-- The lines that become whole with these texts are stamped.
abbrev AreStamped : Clock → Source → Str → Str → Type 0
AreStamped k s out err =
    All (IsStamped k) (lines_from s.stdout_buf out)
    × All (IsStamped k) (lines_from s.stderr_buf err)

accept-after :
    (k : Clock) (f : Frame) (s : Source)
    → IsPending s
    → AreStamped k s (said of_stdout f) (said of_stderr f)
    → accept k f.kind f.payload s ≡ some (after s (said of_stdout f) (said of_stderr f))
unfolding accept lines_from rest_from relabelled
accept-after k f s p st = elim (Bool-cases (f.kind == 2)) [
  | inl e ↦
      let told : All (IsStamped k) (lines_from s.stderr_buf f.payload) = rw e at st.1 in
      rw
        (
          e,
          append-nil s.pipes.stdout,
          flush-pending k of_stderr s.stderr_buf f.payload s.pipes p.1 told,
        )
        refl
  | inr e ↦
      let told : All (IsStamped k) (lines_from s.stdout_buf f.payload) = rw e at st.0 in
      rw
        (
          e,
          append-nil s.pipes.stderr,
          flush-pending k of_stdout s.stdout_buf f.payload s.pipes p.0 told,
        )
        refl
]

after_nothing : (s : Source) → after s [] [] ≡ s
unfolding lines_from rest_from relabelled
after_nothing s = rw (append-nil s.pipes.stdout, append-nil s.pipes.stderr) refl

said_nothing : (f : Frame) → f.payload ≡ [] → (said of_stdout f ≡ []) × (said of_stderr f ≡ [])
said_nothing f e = ground arith

empty_of_length : (t : Str) → length t ≡ 0 → t ≡ []
empty_of_length [] h = refl
empty_of_length (c ∷ t) h = absurd (omega arith)

demux_logs-frame :
    (fuel : ℕ) (k : Clock) (f : Frame) (rest : Str) (s : Source)
    → Fits f
    → IsPending s
    → AreStamped k s (said of_stdout f) (said of_stderr f)
    → demux_logs (suc fuel) k (record { bytes = header_of f ++ (f.payload ++ rest); ends = eof }) s
      ≡ demux_logs fuel k
          (record { bytes = rest; ends = eof })
          (after s (said of_stdout f) (said of_stderr f))
unfolding demux_logs frame_type
demux_logs-frame fuel k f rest s h p st = elim (Bool-cases (length f.payload == 0)) [
  | inl e ↦
      let none_there = empty_of_length f.payload ((==_iff (length f.payload) 0).0 e) in
      let (o, r) = said_nothing f none_there in
      rw (read_full-append (header_of f) (f.payload ++ rest) eof, demux_logs)
        (rw (frame_size-header_of f h, demux_logs)
          (rw (e, demux_logs)
            (rw (o, r, after_nothing s)
              (ap (λ t. demux_logs fuel k (record { bytes = t ++ rest; ends = eof }) s)
                none_there))))
  | inr e ↦
      rw (read_full-append (header_of f) (f.payload ++ rest) eof, demux_logs)
        (rw (frame_size-header_of f h, demux_logs)
          (rw (e, demux_logs)
            (rw (frame_size-header_of f h, demux_logs)
              (rw (read_full-append f.payload rest eof, demux_logs)
                (rw (accept-after k f s p st, demux_logs) refl)))))
]

demux_logs-Tail :
    (fuel : ℕ) (k : Clock) (s : Source) {t : Str} {why : Option Error}
    → Tail t why
    → demux_logs (suc fuel) k (record { bytes = t; ends = eof }) s ≡ some s
unfolding demux_logs
demux_logs-Tail fuel k s clean = rw (read_full-short 8 [] eof (omega arith), demux_logs)
demux_logs-Tail fuel k s (torn_header {b} bs h) = rw (read_full-short 8 (b ∷ bs) eof h, demux_logs)
demux_logs-Tail fuel k s (torn_payload f part fit h) =
    rw (read_full-append (header_of f) part eof, demux_logs)
      (rw (frame_size-header_of f fit, demux_logs)
        (rw (is_some_size (length f.payload) (length part) h, demux_logs)
          (rw (frame_size-header_of f fit, demux_logs)
            (rw (read_full-short (length f.payload) part eof h, demux_logs) refl))))
  where
    is_some_size : (n m : ℕ) → m < n → (n == 0) ≡ false
    is_some_size n m h = ground arith

lines_from-IsStamped :
    (k : Clock) (acc a b : Str)
    → All (IsStamped k) (lines_from acc (a ++ b))
    → All (IsStamped k) (lines_from acc a) × All (IsStamped k) (lines_from (rest_from acc a) b)
lines_from-IsStamped k acc a b h =
    All-split (IsStamped k) (lines_from acc a) _ (rw (lines_from-append acc a b) at h)

demux_logs-encode :
    (fuel : ℕ) (k : Clock) (fs : List Frame) (s : Source) {t : Str} {why : Option Error}
    → Tail t why
    → All Fits fs
    → length fs < fuel
    → IsPending s
    → AreStamped k s (text_of of_stdout fs) (text_of of_stderr fs)
    → demux_logs fuel k (record { bytes = encode fs ++ t; ends = eof }) s
      ≡ some (after s (text_of of_stdout fs) (text_of of_stderr fs))
demux_logs-encode zero k fs s tail fits h p st = elim h [ ]
demux_logs-encode (suc fuel) k [] s tail fits h p st =
    demux_logs-Tail fuel k s tail ∙ ap some (sym (after_nothing s))
demux_logs-encode (suc fuel) k (f ∷ fs) s {t} tail fits h p st =
    let (o, o') =
      lines_from-IsStamped k s.stdout_buf (said of_stdout f) (text_of of_stdout fs) st.0 in
    let (r, r') =
      lines_from-IsStamped k s.stderr_buf (said of_stderr f) (text_of of_stderr fs) st.1 in
    let s' : Source = after s (said of_stdout f) (said of_stderr f) in
    rw (append_assoc f.payload (encode fs) t) (
      demux_logs-frame fuel k f (encode fs ++ t) s fits.0 p (o, r)
      ∙ demux_logs-encode fuel k fs s' tail fits.1 (omega arith)
          (
            index_byte-rest_from s.stdout_buf (said of_stdout f) p.0,
            index_byte-rest_from s.stderr_buf (said of_stderr f) p.1,
          )
          (o', r')
      ∙ ap some (
          after-after s (said of_stdout f) (said of_stderr f) (text_of of_stdout fs)
            (text_of of_stderr fs)))

-- However the runtime cuts the output of a container into frames, and wherever the stream ends,
-- each pipe gets the whole lines of the text that the frames carry for it, in the CRI form, and
-- nothing else, if the runtime stamps each of those lines: type 2 is stderr, any other stdout. The
-- text behind the last newline of each stays in its accumulator and is not written.
pub log_source-encode :
    (k : Clock) (fs : List Frame) {t : Str} {why : Option Error}
    → Tail t why
    → All Fits fs
    → All (IsStamped k) (lines (text_of of_stdout fs))
    → All (IsStamped k) (lines (text_of of_stderr fs))
    → log_source k (record { bytes = encode fs ++ t; ends = eof })
      ≡ some (record {
        stdout_buf = leftover (text_of of_stdout fs);
        stderr_buf = leftover (text_of of_stderr fs);
        pipes = record {
          stdout = relabelled of_stdout (lines (text_of of_stdout fs));
          stderr = relabelled of_stderr (lines (text_of of_stderr fs));
        };
      })
unfolding log_source index_byte
log_source-encode k fs {t} tail fits o r =
    demux_logs-encode (suc (length (encode fs ++ t))) k fs new_source tail fits
      (omega (arith, length-encode fs t)) (refl, refl) (o, r)
