-- ===== src/Logs/Pump/Drain.antt =====
-- The inner loop as a relation: which lines it takes off a buffer, and what it leaves.
use nanokube.Prelude.{
  ℕ, zero, suc, ◌-◌, ◌≤◌, ◌<◌, ◌≡◌, refl, sym, ap, ◌∙◌, ◌⊎◌, inl, inr, true, false, ◌&&◌, none,
  some, List, [], ◌∷◌, ◌++◌, arith, Option-cases, length, take, drop, length-drop, length-take,
  take-append-drop, All, Str,
}
use mathlib.Core.List.{append_assoc, append-nil, flatten}
use nanokube.Logs.Lines.{index_byte, index_byte-lt, index_byte-take}
use nanokube.Logs.Stream.{Tap, tap_write, LogStream}
use nanokube.Logs.Pump.{StreamType, of_stdout, of_stderr, tap_of, write_line, cut_at, drain}

pub data Drains (cap : ℕ) : Str → List Str → Str → Type 0 where
  done : {buf : Str} → cut_at cap buf ≡ none → Drains cap buf [] buf
  cut :
      {buf : Str} {ls : List Str} {rest : Str} (i : ℕ)
      → cut_at cap buf ≡ some i
      → Drains cap (drop (suc i) buf) ls rest
      → Drains cap buf (take (suc i) buf ∷ ls) rest

-- A tap that refuses no write.
abbrev pub IsHealthy : Tap → Type 0
IsHealthy t = (t.attached && t.closed) ≡ false

unfoldable pub wrote : StreamType → LogStream → List Str → LogStream
wrote which s [] = s
wrote which s (l ∷ ls) = wrote which (write_line which s l).0 ls

write_line-IsHealthy :
    (which : StreamType) (s : LogStream) (l : Str)
    → IsHealthy (tap_of which s)
    → ((write_line which s l).1 ≡ true) × IsHealthy (tap_of which (write_line which s l).0)
unfolding write_line tap_write
write_line-IsHealthy of_stdout s l h = ground arith
write_line-IsHealthy of_stderr s l h = ground arith

pub cut_at-lt : (cap : ℕ) (buf : Str) {i : ℕ} → 0 < cap → cut_at cap buf ≡ some i → i < length buf
unfolding cut_at
cut_at-lt cap buf {i} pos h = elim (Option-cases (index_byte buf)) [
  | inl e ↦ ground arith
  | inr (j, e) ↦ ground (arith, index_byte-lt buf e)
]

-- With fuel enough the loop takes off all the lines that are there.
pub drain-Drains :
    (fuel cap : ℕ) (which : StreamType) (buf : Str) (s : LogStream)
    → 0 < cap
    → length buf < fuel
    → IsHealthy (tap_of which s)
    → (ls : List Str) × (rest : Str) × Drains cap buf ls rest
      × (drain fuel cap which buf s ≡ some (rest, wrote which s ls, true))
      × IsHealthy (tap_of which (wrote which s ls))
unfolding drain wrote
drain-Drains zero cap which buf s pos h ok = elim h [ ]
drain-Drains (suc fuel) cap which buf s pos h ok = elim (Option-cases (cut_at cap buf)) [
  | inl e ↦ ([], buf, done e, rw (e, drain) refl, ok)
  | inr (i, e) ↦
      let line = take (suc i) buf in
      let (fine, ok') = write_line-IsHealthy which s line ok in
      let (ls, rest, d, run, ok'') =
        drain-Drains fuel cap which (drop (suc i) buf) (write_line which s line).0 pos
          (omega (arith, length-drop (suc i) buf, cut_at-lt cap buf pos e)) ok' in
      (line ∷ ls, rest, cut i e d, rw (e, drain) (rw (fine, drain) run), ok'')
]

-- The lines and what is left are the buffer.
pub Drains-flatten :
    {cap : ℕ} {buf : Str} {ls : List Str} {rest : Str}
    → Drains cap buf ls rest
    → flatten ls ++ rest ≡ buf
unfolding flatten
Drains-flatten (done e) = refl
Drains-flatten (cut {buf} {ls} {rest} i e d) =
    append_assoc (take (suc i) buf) (flatten ls) rest
    ∙ ap (◌++◌ (take (suc i) buf)) (Drains-flatten d)
    ∙ take-append-drop (suc i) buf

pub Drains-stuck :
    {cap : ℕ} {buf : Str} {ls : List Str} {rest : Str}
    → Drains cap buf ls rest
    → cut_at cap rest ≡ none
Drains-stuck (done e) = e
Drains-stuck (cut i e d) = Drains-stuck d

write_line-disk :
    (which : StreamType) (s : LogStream) (l : Str)
    → s.log_file ≡ true
    → ((write_line which s l).0.disk ≡ s.disk ++ l) × ((write_line which s l).0.log_file ≡ true)
unfolding write_line
write_line-disk of_stdout s l h = ground arith
write_line-disk of_stderr s l h = ground arith

-- The log file gets the lines, one behind the other.
pub wrote-disk :
    (which : StreamType) (s : LogStream) (ls : List Str)
    → s.log_file ≡ true
    → (wrote which s ls).disk ≡ s.disk ++ flatten ls
unfolding wrote flatten
wrote-disk which s [] h = sym (append-nil s.disk)
wrote-disk which s (l ∷ ls) h =
    let (grown, on) = write_line-disk which s l h in
    wrote-disk which (write_line which s l).0 ls on ∙ rw grown (append_assoc s.disk l (flatten ls))

pub wrote-append :
    (which : StreamType) (s : LogStream) (ls ms : List Str)
    → wrote which s (ls ++ ms) ≡ wrote which (wrote which s ls) ms
unfolding wrote
wrote-append which s [] ms = refl
wrote-append which s (l ∷ ls) ms = wrote-append which (write_line which s l).0 ls ms

-- A line of the log: it ends with its only newline, or it is a full buffer.
abbrev pub IsLine : ℕ → Str → Type 0
IsLine cap l = (index_byte l ≡ some (length l - 1)) ⊎ (cap ≤ length l)

index_byte-last :
    (buf : Str) {j : ℕ}
    → index_byte buf ≡ some j
    → index_byte (take (suc j) buf) ≡ some (length (take (suc j) buf) - 1)
index_byte-last buf {j} e =
    index_byte-take buf e ∙ ap some (omega (arith, length-take (suc j) buf, index_byte-lt buf e))

cut_at-IsLine :
    (cap : ℕ) (buf : Str) {i : ℕ}
    → 0 < cap
    → cut_at cap buf ≡ some i
    → IsLine cap (take (suc i) buf)
unfolding cut_at
cut_at-IsLine cap buf {i} pos h = elim (Option-cases (index_byte buf)) [
  | inl e ↦ inr (ground (arith, length-take (suc i) buf))
  | inr (j, e) ↦ inl (ground (arith, index_byte-last buf e))
]

-- Every line taken off is one, and no longer than the buffer.
pub Drains-IsLine :
    {cap n : ℕ} {buf : Str} {ls : List Str} {rest : Str}
    → 0 < cap
    → Drains cap buf ls rest
    → length buf < n
    → All (λ l. IsLine cap l × (length l < n)) ls
Drains-IsLine pos (done e) h = tt
Drains-IsLine {cap} {n} pos (cut {buf} i e d) h = (
  (cut_at-IsLine cap buf pos e, omega (arith, length-take (suc i) buf)),
  Drains-IsLine pos d (omega (arith, length-drop (suc i) buf)),
)

-- What cannot be cut is shorter than a full buffer, and has no newline.
pub cut_at-none :
    (cap : ℕ) (buf : Str) → cut_at cap buf ≡ none → (index_byte buf ≡ none) × (length buf < cap)
unfolding cut_at
cut_at-none cap buf h = ground arith
