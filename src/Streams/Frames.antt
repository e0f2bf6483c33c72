-- ===== src/Streams/Frames.antt =====
-- The stdcopy wire format that ProxyStream (pkg/nanokube/streams.go) and LogStream
-- (pkg/driver/docker/docker.go) read: [type:1][zero:3][size:4 big endian][payload].
-- A reader is the bytes that are still to come and the error that it gives after them.
use nanokube.Prelude.{
  ℕ, ◌+◌, ◌*◌, ◌/◌, ◌%◌, ◌≤◌, ◌<◌, ◌≡◌, refl, ◌⊎◌, inl, inr, true, List, [], ◌∷◌, ◌++◌, arith, leb,
  if◌then◌else◌, length, take, drop, length-append, length-drop, take-append, drop-append, Str,
}

pub data Error : Type 0 where
  eof unexpected_eof broken : Error
  write_failed : ℕ → Error

pub record Reader : Type 0 where
  pub bytes : Str
  pub ends : Error

pub data Filled : Type 0 where
  full : Str → Reader → Filled
  short : Error → Filled

-- The error of `io.ReadFull` when `n` bytes came before the reader's own error.
abbrev pub short_error : Str → Error → Error
short_error (b ∷ bs) eof = unexpected_eof
short_error _ e = e

-- `io.ReadFull` into a buffer of `n` bytes.
unfoldable pub read_full : ℕ → Reader → Filled
read_full n r =
    if leb n (length r.bytes)
    then full (take n r.bytes) (record r { bytes = drop n r.bytes })
    else short (short_error r.bytes r.ends)

big_endian_from : ℕ → Str → ℕ
big_endian_from acc [] = acc
big_endian_from acc (b ∷ bs) = big_endian_from (acc * 256 + b) bs

-- `binary.BigEndian.Uint32(header[4:8])`.
unfoldable pub frame_size : Str → ℕ
unfolding big_endian_from
frame_size header = big_endian_from 0 (take 4 (drop 4 header))

-- `header[0]`.
unfoldable pub frame_type : Str → ℕ
frame_type [] = 0
frame_type (t ∷ header) = t

-- What the container runtime sends.
pub record Frame : Type 0 where
  pub kind : ℕ
  pub payload : Str

abbrev pub header_of : Frame → Str
header_of f =
    f.kind
    ∷ 0
    ∷ 0
    ∷ 0
    ∷ (length f.payload / 16777216)
    ∷ (length f.payload / 65536 % 256)
    ∷ (length f.payload / 256 % 256)
    ∷ (length f.payload % 256)
    ∷ []

abbrev pub encode : List Frame → Str
encode [] = []
encode (f ∷ fs) = header_of f ++ (f.payload ++ encode fs)

abbrev pub Fits : Frame → Type 0
Fits f = length f.payload < 4294967296

pub frame_size-header_of : (f : Frame) → Fits f → frame_size (header_of f) ≡ length f.payload
unfolding frame_size
frame_size-header_of f h = omega arith

leb-append : (xs ys : Str) → leb (length xs) (length (xs ++ ys)) ≡ true
leb-append xs ys = ground (arith, length-append xs ys)

pub read_full-append :
    (xs ys : Str) (e : Error)
    → read_full (length xs) (record { bytes = xs ++ ys; ends = e })
      ≡ full xs (record { bytes = ys; ends = e })
unfolding read_full
read_full-append xs ys e = rw (leb-append xs ys, take-append xs ys, drop-append xs ys)

pub read_full-short :
    (n : ℕ) (xs : Str) (e : Error)
    → length xs < n
    → read_full n (record { bytes = xs; ends = e }) ≡ short (short_error xs e)
unfolding read_full
read_full-short n xs e h = ground arith

-- To split on what a read gave and keep the equation.
pub Filled-cases :
    (x : Filled) → ((bs : Str) × (r : Reader) × (x ≡ full bs r)) ⊎ ((e : Error) × (x ≡ short e))
Filled-cases (full bs r) = inl (bs, r, refl)
Filled-cases (short e) = inr (e, refl)

-- A read that is filled takes its bytes off the reader.
pub read_full-length :
    (n : ℕ) (r : Reader) {bs : Str} {r' : Reader}
    → read_full n r ≡ full bs r'
    → length r.bytes ≡ n + length r'.bytes
unfolding read_full
read_full-length n r e = ground (arith, length-drop n r.bytes)

pub length-encode : (fs : List Frame) (t : Str) → length fs ≤ length (encode fs ++ t)
length-encode [] t = omega arith
length-encode (f ∷ fs) t = omega (
  arith,
  length-encode fs t,
  length-append (f.payload ++ encode fs) t,
  length-append f.payload (encode fs),
  length-append (encode fs) t,
)
