-- ===== src/Logs/Lines.antt =====
-- Finding newlines in a byte buffer, and the lines of a text as a specification of the loops that
-- take them off one at a time.
use nanokube.Prelude.{
  ℕ, suc, ◌<◌, ◌≡◌, refl, sym, ap, ◌∙◌, inl, inr, Option, none, some, List, [], ◌∷◌, ◌++◌, arith,
  ◌==◌, if◌then◌else◌, Bool-cases, Option-cases, length, take, drop, Str,
}
use mathlib.Core.List.{append_assoc, append-nil, flatten}
use mathlib.Core.Option

-- `bytes.IndexByte(buf, '\n')`.
unfoldable pub index_byte : Str → Option ℕ
index_byte [] = none
index_byte (c ∷ cs) = if c == b'\n' then some 0 else Option.map suc (index_byte cs)

-- The lines of a text that comes behind the unfinished line `acc`, each with its newline.
unfoldable pub lines_from : Str → Str → List Str
lines_from acc [] = []
lines_from acc (c ∷ cs) =
    let here = (acc ++ (c ∷ [])) ∷ lines_from [] cs in
    let on = lines_from (acc ++ (c ∷ [])) cs in if c == b'\n' then here else on

-- What stands behind its last newline.
unfoldable pub rest_from : Str → Str → Str
rest_from acc [] = acc
rest_from acc (c ∷ cs) = rest_from (if c == b'\n' then [] else acc ++ (c ∷ [])) cs

abbrev pub lines : Str → List Str
lines = lines_from []

abbrev pub leftover : Str → Str
leftover = rest_from []

pub lines_from-append :
    (acc xs ys : Str)
    → lines_from acc (xs ++ ys) ≡ lines_from acc xs ++ lines_from (rest_from acc xs) ys
unfolding lines_from rest_from
lines_from-append acc [] ys = refl
lines_from-append acc (c ∷ xs) ys = elim (Bool-cases (c == b'\n')) [
  | inl e ↦ rw e (ap (◌∷◌ (acc ++ (c ∷ []))) (lines_from-append [] xs ys))
  | inr e ↦ rw e (lines_from-append (acc ++ (c ∷ [])) xs ys)
]

pub rest_from-append :
    (acc xs ys : Str) → rest_from acc (xs ++ ys) ≡ rest_from (rest_from acc xs) ys
unfolding rest_from
rest_from-append acc [] ys = refl
rest_from-append acc (c ∷ xs) ys =
    rest_from-append (if c == b'\n' then [] else acc ++ (c ∷ [])) xs ys

-- The lines and the rest are the whole text.
pub lines_from-flatten :
    (acc xs : Str) → flatten (lines_from acc xs) ++ rest_from acc xs ≡ acc ++ xs
unfolding flatten lines_from rest_from
lines_from-flatten acc [] = sym (append-nil acc)
lines_from-flatten acc (c ∷ xs) = elim (Bool-cases (c == b'\n')) [
  | inl e ↦ rw e (
      rw
        (
          append_assoc (acc ++ (c ∷ [])) (flatten (lines_from [] xs)) (rest_from [] xs),
          lines_from-flatten [] xs,
        )
        (append_assoc acc (c ∷ []) xs))
  | inr e ↦ rw e (lines_from-flatten (acc ++ (c ∷ [])) xs ∙ append_assoc acc (c ∷ []) xs)
]

-- No newline is there: the text is one unfinished line.
pub lines_from-index_none :
    (acc buf : Str)
    → index_byte buf ≡ none
    → (lines_from acc buf ≡ []) × (rest_from acc buf ≡ acc ++ buf)
unfolding index_byte lines_from rest_from
lines_from-index_none acc [] h = (refl, sym (append-nil acc))
lines_from-index_none acc (c ∷ cs) h =
    ground (arith, lines_from-index_none (acc ++ (c ∷ [])) cs, append_assoc acc (c ∷ []) cs)

-- The first newline ends the first line.
pub lines_from-index_some :
    (acc buf : Str) {i : ℕ}
    → index_byte buf ≡ some i
    → (lines_from acc buf ≡ (acc ++ take (suc i) buf) ∷ lines (drop (suc i) buf))
      × (rest_from acc buf ≡ leftover (drop (suc i) buf))
unfolding index_byte lines_from rest_from
lines_from-index_some acc [] h = cc
lines_from-index_some acc (c ∷ cs) {i} h = elim (Bool-cases (c == b'\n')) [
  | inl e ↦ ground arith
  | inr e ↦ elim (Option-cases (index_byte cs)) [
    | inl p ↦ absurd (ground arith)
    | inr (j, p) ↦ ground (
      arith,
      lines_from-index_some (acc ++ (c ∷ [])) cs p,
      append_assoc acc (c ∷ []) (take (suc j) cs),
    )
  ]
]

pub index_byte-lt : (buf : Str) {i : ℕ} → index_byte buf ≡ some i → i < length buf
unfolding index_byte
index_byte-lt [] h = cc
index_byte-lt (c ∷ cs) {i} h = elim (Option-cases (index_byte cs)) [
  | inl e ↦ ground arith
  | inr (j, e) ↦ ground (arith, index_byte-lt cs e)
]

-- What stands before the first newline, and it, is one line.
pub index_byte-take :
    (buf : Str) {i : ℕ} → index_byte buf ≡ some i → index_byte (take (suc i) buf) ≡ some i
unfolding index_byte
index_byte-take [] h = cc
index_byte-take (c ∷ cs) {i} h = elim (Bool-cases (c == b'\n')) [
  | inl e ↦ ground arith
  | inr e ↦ elim (Option-cases (index_byte cs)) [
    | inl p ↦ absurd (ground arith)
    | inr (j, p) ↦ ground (arith, index_byte-take cs p)
  ]
]
