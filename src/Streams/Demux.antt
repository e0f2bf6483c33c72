-- ===== src/Streams/Demux.antt =====
-- ProxyStream (pkg/nanokube/streams.go): the goroutine that reads the attached connection and
-- writes to the client's stdout and stderr.
pub mod Delivery
use nanokube.Prelude.{
  ℕ, zero, suc, ◌+◌, ◌-◌, ◌*◌, ◌/◌, ◌%◌, ◌^◌, ◌≤◌, ◌<◌, ◌≡◌, refl, sym, ap, ◌∙◌, subst, ◌≢◌, ◌↔◌,
  ◌⊎◌, inl, inr, Bool, true, false, ◌&&◌, ◌||◌, not, Option, none, some, List, [], ◌∷◌, ◌++◌, map,
  arith, ltb, leb, ◌==◌, if◌then◌else◌, ltb→lt, lt→ltb, leb→le, ==_iff, Bool-cases, Option-cases,
  length, take, drop, length-append, length-drop, length-take, take-append, drop-append,
  take-append-drop, All, All-append, Str, str, same, same_iff, same_refl, same_ne,
  append_left_cancel, has_prefix, has_prefix-append, Dict, lookup, insert, copy_into, lookup-insert,
  lookup-insert_self, lookup-insert_ne, value_of,
}
use nanokube.Streams.Frames.{
  Error, eof, Reader, Filled, full, short, read_full, frame_size, frame_type,
}

-- Where a payload goes.
pub data Target : Type 0 where
  out err discard : Target

-- The part of the request that says which streams the client asked for.
pub record Wanted : Type 0 where
  pub stdout : Bool
  pub stderr : Bool

abbrev pub target : Wanted → ℕ → Target
target s kind =
    if kind == 1
    then if s.stdout then out else discard
    else if kind == 2
    then if s.stderr then err else discard
    else discard

-- The two writers are the client's: `write` is what a write does to their state, and its error.
module _ {ℓ} {W : Type ℓ} (write : Target → Str → W → W × Option Error) where
  -- `io.Discard` takes every write.
  abbrev pub write_to : Target → Str → W → W × Option Error
  write_to discard payload w = (w, none)
  write_to out payload w = write out payload w
  write_to err payload w = write err payload w

  abbrev header_error : Error → Option Error
  header_error eof = none
  header_error e = some e

  -- The loop over frames. The result is `none` only where the fuel runs out.
  unfoldable pub demux : ℕ → Wanted → Reader → W → Option (W × Option Error)
  demux zero s r w = none
  demux (suc fuel) s r w = elim (read_full 8 r) [
    | short e ↦ some (w, header_error e)
    | full header r' ↦ elim (read_full (frame_size header) r') [
      | short e ↦ some (w, some e)
      | full payload r'' ↦
          let (w', e) = write_to (target s (frame_type header)) payload w in
          elim e [ none ↦ demux fuel s r'' w' | some why ↦ some (w', some why) ]
    ]
  ]

  -- Each round takes eight bytes at least.
  unfoldable pub proxy_output : Wanted → Reader → W → Option (W × Option Error)
  proxy_output s r w = demux (suc (length r.bytes)) s r w
