-- ===== src/Streams/Demux/Delivery.antt =====
-- What the loop over frames delivers, on every way in which the connection can end.
use nanokube.Prelude.{
  ℕ, zero, suc, ◌<◌, ◌≡◌, refl, inl, inr, Option, none, some, List, [], ◌∷◌, ◌++◌, arith,
  Option-cases, length, All, Str, Returns, Returns-some,
}
use mathlib.Core.List.{append_assoc}
use nanokube.Streams.Frames.{
  Error, eof, unexpected_eof, frame_type, Frame, header_of, Fits, frame_size-header_of,
  read_full-append, read_full-short, short_error, Reader, encode, Filled-cases, read_full-length,
  read_full, frame_size, length-encode,
}
use nanokube.Streams.Demux.{Target, Wanted, target, write_to, demux, proxy_output}

-- How the bytes behind the last whole frame look, and the error that they stand for.
pub data Tail : Str → Option Error → Type 0 where
  clean : Tail [] none
  torn_header : {b : ℕ} (bs : Str) → length (b ∷ bs) < 8 → Tail (b ∷ bs) (some unexpected_eof)
  torn_payload :
      (f : Frame) (part : Str)
      → Fits f
      → length part < length f.payload
      → Tail (header_of f ++ part) (some (short_error part eof))

module _ {ℓ} {W : Type ℓ} (write : Target → Str → W → W × Option Error) where
  -- The frames are written in their order, each whole, up to the first write that fails.
  pub deliver : Wanted → List Frame → W → W × Option Error
  deliver s [] w = (w, none)
  deliver s (f ∷ fs) w =
      let (w', e) = write_to write (target s f.kind) f.payload w in
      elim e [ none ↦ deliver s fs w' | some why ↦ (w', some why) ]

  abbrev pub and_then : W × Option Error → Option Error → W × Option Error
  and_then (w, none) why = (w, why)
  and_then (w, some e) why = (w, some e)

  demux-frame :
      (fuel : ℕ) (s : Wanted) (f : Frame) (rest : Str) (w : W)
      → Fits f
      → demux write
          (suc fuel)
          s
          (record { bytes = header_of f ++ (f.payload ++ rest); ends = eof })
          w
        ≡ (let (w', e) = write_to write (target s f.kind) f.payload w in
            elim e [
              | none ↦ demux write fuel s (record { bytes = rest; ends = eof }) w'
              | some why ↦ some (w', some why)
            ])
  unfolding demux frame_type
  demux-frame fuel s f rest w h =
      rw (read_full-append (header_of f) (f.payload ++ rest) eof, demux)
        (rw (frame_size-header_of f h, demux)
          (rw (read_full-append f.payload rest eof, demux) refl))

  demux-Tail :
      (fuel : ℕ) (s : Wanted) (w : W) {t : Str} {why : Option Error}
      → Tail t why
      → demux write (suc fuel) s (record { bytes = t; ends = eof }) w ≡ some (w, why)
  unfolding demux
  demux-Tail fuel s w clean = rw (read_full-short 8 [] eof (omega arith), demux)
  demux-Tail fuel s w (torn_header {b} bs h) = rw (read_full-short 8 (b ∷ bs) eof h, demux)
  demux-Tail fuel s w (torn_payload f part fit h) = rw (
    read_full-append (header_of f) part eof,
    frame_size-header_of f fit,
    read_full-short (length f.payload) part eof h,
    demux,
  )

  demux-encode :
      (fuel : ℕ) (s : Wanted) (fs : List Frame) (w : W) {t : Str} {why : Option Error}
      → Tail t why
      → All Fits fs
      → length fs < fuel
      → demux write fuel s (record { bytes = encode fs ++ t; ends = eof }) w
        ≡ some (and_then (deliver s fs w) why)
  unfolding deliver
  demux-encode zero s fs w tail fits h = elim h [ ]
  demux-encode (suc fuel) s [] w tail fits h = demux-Tail fuel s w tail
  demux-encode (suc fuel) s (f ∷ fs) w {t} tail fits h =
      rw (append_assoc f.payload (encode fs) t, demux-frame fuel s f (encode fs ++ t) w fits.0)
        (elim (Option-cases (write_to write (target s f.kind) f.payload w).1) [
          | inl fine ↦ rw (fine, deliver) (demux-encode fuel s fs _ tail fits.1 (omega arith))
          | inr (why', failed) ↦ rw (failed, deliver) refl
        ])

  -- Whatever whole frames the runtime sends before the connection ends, each payload is handed to
  -- the writer of its stream (type 1 to stdout, 2 to stderr, others and streams not asked for to
  -- nowhere), in their order and up to the first write that fails; and if none fails the loop
  -- returns no error at a clean end, and an error at an end inside a header or a payload, of
  -- which no byte is written.
  pub proxy_output-encode :
      (s : Wanted) (fs : List Frame) (w : W) {t : Str} {why : Option Error}
      → Tail t why
      → All Fits fs
      → proxy_output write s (record { bytes = encode fs ++ t; ends = eof }) w
        ≡ some (and_then (deliver s fs w) why)
  unfolding proxy_output
  proxy_output-encode s fs w {t} tail fits =
      demux-encode _ s fs w tail fits (omega (arith, length-encode fs t))

  demux-Returns :
      (fuel : ℕ) (s : Wanted) (r : Reader) (w : W)
      → length r.bytes < fuel
      → Returns (demux write fuel s r w)
  unfolding demux
  demux-Returns zero s r w h = elim h [ ]
  demux-Returns (suc fuel) s r w h = elim (Filled-cases (read_full 8 r)) [
    | inr (e, header) ↦ rw (header, demux) tt
    | inl (bs, r', header) ↦ elim (Filled-cases (read_full (frame_size bs) r')) [
      | inr (e, payload) ↦ rw (header, demux) (rw (payload, demux) tt)
      | inl (bs', r'', payload) ↦
          rw (header, demux)
            (rw (payload, demux)
              (elim (Option-cases (write_to write (target s (frame_type bs)) bs' w).1) [
                | inr (why, failed) ↦ rw failed tt
                | inl fine ↦ rw fine (
                    demux-Returns fuel s r'' _ (
                      omega (
                        arith,
                        read_full-length 8 r header,
                        read_full-length (frame_size bs) r' payload,
                      )))
              ]))
    ]
  ]

  -- Whatever bytes come, in whatever shape, and whatever the writers do, the loop ends.
  proxy_output_total :
      (s : Wanted) (r : Reader) (w : W)
      → (res : W × Option Error) × (proxy_output write s r w ≡ some res)
  unfolding proxy_output
  proxy_output_total s r w = Returns-some _ (demux-Returns _ s r w (omega arith))
