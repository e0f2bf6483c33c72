-- ===== src/Logs/Tests.antt =====
-- Log streams on concrete calls and bytes.
use nanokube.Prelude.{
  ◌+◌, ◌<◌, ◌≡◌, refl, true, false, ◌&&◌, none, some, List, [], ◌∷◌, ◌++◌, arith, ◌==◌, length, All,
  Str, str, same,
}
use mathlib.Core.List.{flatten}
use mathlib.Core.Option
use nanokube.Logs.Lines.{index_byte, lines, leftover, lines_from}
use nanokube.Logs.Stream.{
  tap_write, end_run, remove, LogStream, new_log_stream, stop, start, destroy, Answers, Event,
  starts, stops, destroys, pump_returns, attaches_stdout, step, history,
}
use nanokube.Logs.Stream.Lifecycle.{Inv, history-new_log_stream-Inv}
use nanokube.Logs.Stream.Reopen.{Undone, granted, reopen-Undone}
use nanokube.Logs.Pump.{of_stdout, of_stderr, Read, pump, max_line_bytes, cut_at, drain, write_line}
use nanokube.Logs.Pump.Whole.{chunks, pump_whole}
use nanokube.Logs.Pump.Drain.{IsLine}
use nanokube.Logs.Runtime.{
  Clock, log_source, cut_space, accept, demux_logs, ends_line, flush, stamp,
}
use nanokube.Logs.Runtime.Flush.{IsStamped, relabelled}
use nanokube.Logs.Runtime.Whole.{text_of, log_source-encode}
use nanokube.Streams.Frames.{eof, Frame, encode, frame_size, frame_type, read_full}
use nanokube.Streams.Demux.Delivery.{torn_header}

abbrev denied : Answers
denied = record { mkdir_ok = true; open_ok = false; source_ok = true }

abbrev calls : List Event
calls =
    starts granted
    ∷ attaches_stdout
    ∷ stops
    ∷ starts denied
    ∷ starts granted
    ∷ destroys
    ∷ starts granted
    ∷ []

history-new_log_stream-Inv_example : Inv (history (new_log_stream (str "/var/log/c.log")) calls)
history-new_log_stream-Inv_example = history-new_log_stream-Inv (str "/var/log/c.log") calls

abbrev dead : LogStream
dead = history (new_log_stream (str "/var/log/c.log")) calls

dead_destroyed : dead.destroyed ≡ true
unfolding history step new_log_stream start stop destroy same
dead_destroyed = refl

abbrev fresh : LogStream
fresh = new_log_stream (str "/var/log/c.log")

fresh_started :
    ((start granted fresh).started ≡ true)
    × ((start granted fresh).stopped ≡ false)
    × ((start granted fresh).close_source ≡ some 0)
    × (fresh.destroyed ≡ false)
unfolding start new_log_stream same
fresh_started = (refl, refl, refl, refl)

reopen-Undone_example :
    Undone fresh fresh.next_run (pump_returns 0 ∷ attaches_stdout ∷ pump_returns 1 ∷ stops ∷ [])
reopen-Undone_example =
    reopen-Undone fresh (pump_returns 0 ∷ attaches_stdout ∷ pump_returns 1 ∷ stops ∷ [])
      fresh_started.3 (tt, (tt, (tt, (tt, tt))))

abbrev filing : LogStream
filing = start granted fresh

filing_ready : (filing.log_file ≡ true) × ((filing.stdout.attached && filing.stdout.closed) ≡ false)
unfolding start new_log_stream same
filing_ready = (refl, refl)

abbrev reads : List Read
reads =
    record { chunk = str "one\nt"; fails = false }
    ∷ record { chunk = str "wo\n\nth"; fails = false }
    ∷ []

abbrev last_read : Read
last_read = record { chunk = str "ree"; fails = true }

-- a small limit makes a line of what has no newline
pump_run :
    Option.map {B = Str × Str}
      (λ r. (r.0, r.1.disk))
      (pump 4 of_stdout [] filing (reads ++ last_read ∷ []))
    ≡ some ([], str "one\ntwo\n\nthree")
unfolding pump stop new_log_stream start same drain cut_at index_byte write_line tap_write end_run
    remove
pump_run = refl

pump_whole_example :
    (ls : List Str) × (left : Str) × (t : LogStream) × (pump max_line_bytes of_stdout [] filing
        (reads ++ last_read ∷ [])
      ≡ some (left, stop t, false))
    × ((stop t).disk ≡ filing.disk ++ flatten ls)
    × (flatten ls ++ left ≡ chunks (reads ++ last_read ∷ []))
    × All (λ l. IsLine max_line_bytes l × (length l < max_line_bytes + 7)) ls
    × (index_byte left ≡ none)
    × (length left < max_line_bytes)
pump_whole_example =
    pump_whole 7 of_stdout filing reads last_read filing_ready.0 filing_ready.1
      ((refl, omega arith), ((refl, omega arith), tt)) refl (omega arith)

-- Stamps are one letter here.
abbrev clock : Clock
clock = record { is_time = λ t. length t == 1; now = λ w. str "N" }

abbrev logged : List Frame
logged =
    record { kind = 1; payload = str "T a\nT b" }
    ∷ record { kind = 2; payload = str "U e\n" }
    ∷ record { kind = 1; payload = str "c\nT d" }
    ∷ []

out-IsStamped : All (IsStamped clock) (lines (text_of of_stdout logged))
unfolding lines_from cut_space
out-IsStamped = ((str "T", str "a\n", refl, refl), ((str "T", str "bc\n", refl, refl), tt))

err-IsStamped : All (IsStamped clock) (lines (text_of of_stderr logged))
unfolding lines_from cut_space
err-IsStamped = ((str "U", str "e\n", refl, refl), tt)

log_source_run :
    log_source clock (record { bytes = encode logged ++ 1 ∷ 0 ∷ []; ends = eof })
    ≡ some (record {
      stdout_buf = str "T d";
      stderr_buf = [];
      pipes = record {
        stdout = str "T stdout F a\nT stdout F bc\n";
        stderr = str "U stderr F e\n";
      };
    })
unfolding log_source demux_logs read_full frame_size accept frame_type flush index_byte stamp
    cut_space ends_line
log_source_run = refl

log_source-encode_example :
    log_source clock (record { bytes = encode logged ++ 1 ∷ 0 ∷ []; ends = eof })
    ≡ some (record {
      stdout_buf = leftover (text_of of_stdout logged);
      stderr_buf = leftover (text_of of_stderr logged);
      pipes = record {
        stdout = relabelled of_stdout (lines (text_of of_stdout logged));
        stderr = relabelled of_stderr (lines (text_of of_stderr logged));
      };
    })
log_source-encode_example =
    log_source-encode clock logged (torn_header (0 ∷ []) (omega arith))
      (omega arith, (omega arith, (omega arith, tt))) out-IsStamped err-IsStamped
