-- ===== src/Streams/Tests.antt =====
-- The attached connection on concrete bytes.
use nanokube.Prelude.{
  ◌≡◌, refl, true, Option, none, some, List, [], ◌∷◌, ◌++◌, arith, if◌then◌else◌, All, Str, str,
  has_prefix,
}
use nanokube.Streams.Frames.{
  Error, eof, unexpected_eof, write_failed, Frame, header_of, encode, Fits, frame_size, frame_type,
  read_full,
}
use nanokube.Streams.Demux.{Target, out, err, discard, Wanted, proxy_output, demux}
use nanokube.Streams.Resizer.{
  Size, new_resizer, Event, updates, handles, finishes, history, step, update, with_handler,
}
use nanokube.Streams.Demux.Delivery.{Tail, torn_payload, deliver, and_then, proxy_output-encode}

-- Two writers that keep what they get; stderr refuses a text that begins with `x`.
abbrev write : Target → Str → Str × Str → (Str × Str) × Option Error
write out t (a, b) = ((a ++ t, b), none)
write err t (a, b) =
    if has_prefix t (str "x") then ((a, b), some (write_failed 5)) else ((a, b ++ t), none)
write discard t w = (w, none)

abbrev both : Wanted
both = record { stdout = true; stderr = true }

abbrev sent : List Frame
sent =
    record { kind = 1; payload = str "ab" }
    ∷ record { kind = 2; payload = str "e" }
    ∷ record { kind = 3; payload = str "?" }
    ∷ record { kind = 1; payload = str "c" }
    ∷ []

sent-Fits : All Fits sent
sent-Fits = (omega arith, (omega arith, (omega arith, (omega arith, tt))))

-- the connection ends inside a payload of stderr
abbrev torn : Str
torn = header_of (record { kind = 2; payload = str "lost" }) ++ str "lo"

torn-Tail : Tail torn (some unexpected_eof)
torn-Tail =
    torn_payload (record { kind = 2; payload = str "lost" }) (str "lo") (omega arith) (omega arith)

run_torn :
    proxy_output write both (record { bytes = encode sent ++ torn; ends = eof }) ([], [])
    ≡ some ((str "abc", str "e"), some unexpected_eof)
unfolding proxy_output demux read_full frame_size frame_type has_prefix
run_torn = refl

-- a refused write ends the loop
run_refused :
    proxy_output write both
      (record { bytes = encode (record { kind = 2; payload = str "xy" } ∷ sent); ends = eof })
      ([], [])
    ≡ some (([], []), some (write_failed 5))
unfolding proxy_output demux read_full frame_size frame_type has_prefix
run_refused = refl

proxy_output-encode_example :
    proxy_output write both (record { bytes = encode sent ++ torn; ends = eof }) ([], [])
    ≡ some (and_then write (deliver write both sent ([], [])) (some unexpected_eof))
proxy_output-encode_example = proxy_output-encode write both sent ([], []) torn-Tail sent-Fits

abbrev small : Size
small = record { height = 24; width = 80 }

abbrev big : Size
big = record { height = 50; width = 132 }

abbrev resizes : List Event
resizes = updates small ∷ handles (some 1) ∷ updates big ∷ handles (some 2) ∷ finishes ∷ []

resized :
    ((history resizes new_resizer).handler ≡ some 2)
    × ((history resizes new_resizer).console_size ≡ some big)
unfolding history step with_handler update
resized = (refl, refl)
