-- ===== src/Tags/Label.antt =====
-- `normalize` of pkg/nanokube/tags.go, on code points.
use nanokube.Prelude.{
  ℕ, ◌+◌, ◌≡◌, refl, ap, inl, inr, Bool, true, false, ◌&&◌, ◌||◌, not, [], ◌∷◌, arith, leb, ◌==◌,
  if◌then◌else◌, Bool-cases, All, Str,
}

-- `strings.ToLower`, as far as what follows can tell: the two code points behind the ASCII letters
-- are the only others whose lower case is an ASCII letter, and the rest is dropped.
abbrev pub to_lower : ℕ → ℕ
to_lower c =
    if leb 65 c && leb c 90
    then c + 32
    else if c == 8490
    then b'k'
    else if c == 304
    then b'i'
    else c

-- The two `strings.ReplaceAll`.
abbrev pub to_dash : ℕ → ℕ
to_dash c = if c == b'_' || c == b'.' then b'-' else c

-- What `[^a-z0-9-]` does not match.
abbrev pub is_dns : ℕ → Bool
is_dns c = (leb 97 c && leb c 122) || (leb 48 c && leb c 57) || c == b'-'

unfoldable pub replaced : Str → Str
replaced [] = []
replaced (c ∷ cs) = to_dash (to_lower c) ∷ replaced cs

-- `reNotDNS.ReplaceAllString(s, "")`.
unfoldable pub only_dns : Str → Str
only_dns [] = []
only_dns (c ∷ cs) = if is_dns c then c ∷ only_dns cs else only_dns cs

abbrev pub starts_dash : Str → Bool
starts_dash [] = false
starts_dash (c ∷ cs) = c == b'-'

-- `reMultiDash.ReplaceAllString(s, "-")`.
unfoldable pub collapse : Str → Str
collapse [] = []
collapse (c ∷ cs) = if c == b'-' && starts_dash cs then collapse cs else c ∷ collapse cs

-- `strings.Trim(s, "-")`, one end at a time.
unfoldable pub trim_left : Str → Str
trim_left [] = []
trim_left (c ∷ cs) = if c == b'-' then trim_left cs else c ∷ cs

abbrev pub is_empty : Str → Bool
is_empty [] = true
is_empty (c ∷ cs) = false

unfoldable pub trim_right : Str → Str
trim_right [] = []
trim_right (c ∷ cs) = if c == b'-' && is_empty (trim_right cs) then [] else c ∷ trim_right cs

unfoldable pub normalize : Str → Str
unfolding replaced only_dns collapse trim_left trim_right
normalize s = trim_right (trim_left (collapse (only_dns (replaced s))))

abbrev pub ends_dash : Str → Bool
ends_dash [] = false
ends_dash (c ∷ cs) = if is_empty cs then c == b'-' else ends_dash cs

abbrev pub single_dashes : Str → Bool
single_dashes [] = true
single_dashes (c ∷ cs) = not (c == b'-' && starts_dash cs) && single_dashes cs

-- A character of a label.
abbrev pub Dns : ℕ → Type 0
Dns c = is_dns c ≡ true

-- What a label is made of: letters, digits and dashes, with no two dashes side by side and none at
-- either end.
pub record IsLabel (s : Str) : Type 0 where
  pub of_dns : All Dns s
  pub single : single_dashes s ≡ true
  pub no_left : starts_dash s ≡ false
  pub no_right : ends_dash s ≡ false

only_dns-All : (s : Str) → All Dns (only_dns s)
unfolding only_dns
only_dns-All [] = tt
only_dns-All (c ∷ cs) = elim (Bool-cases (is_dns c)) [
  | inl e ↦ rw e (e, only_dns-All cs)
  | inr e ↦ rw e (only_dns-All cs)
]

module _ (P : ℕ → Type 0) where
  collapse-All : (s : Str) → All P s → All P (collapse s)
  unfolding collapse
  collapse-All [] h = tt
  collapse-All (c ∷ cs) h = elim (Bool-cases (c == b'-' && starts_dash cs)) [
    | inl e ↦ rw e (collapse-All cs h.1)
    | inr e ↦ rw e (h.0, collapse-All cs h.1)
  ]

  trim_left-All : (s : Str) → All P s → All P (trim_left s)
  unfolding trim_left
  trim_left-All [] h = tt
  trim_left-All (c ∷ cs) h = elim (Bool-cases (c == b'-')) [
    | inl e ↦ rw e (trim_left-All cs h.1)
    | inr e ↦ rw e h
  ]

  trim_right-All : (s : Str) → All P s → All P (trim_right s)
  unfolding trim_right
  trim_right-All [] h = tt
  trim_right-All (c ∷ cs) h = elim (Bool-cases (c == b'-' && is_empty (trim_right cs))) [
    | inl e ↦ rw e tt
    | inr e ↦ rw e (h.0, trim_right-All cs h.1)
  ]

collapse-starts : (s : Str) → starts_dash (collapse s) ≡ starts_dash s
unfolding collapse
collapse-starts [] = refl
collapse-starts (c ∷ cs) = ground (arith, collapse-starts cs)

collapse-single : (s : Str) → single_dashes (collapse s) ≡ true
unfolding collapse
collapse-single [] = refl
collapse-single (c ∷ cs) = ground (arith, collapse-single cs, collapse-starts cs)

trim_left-single : (s : Str) → single_dashes s ≡ true → single_dashes (trim_left s) ≡ true
unfolding trim_left
trim_left-single [] h = refl
trim_left-single (c ∷ cs) h = ground (arith, trim_left-single cs)

trim_left-starts : (s : Str) → starts_dash (trim_left s) ≡ false
unfolding trim_left
trim_left-starts [] = refl
trim_left-starts (c ∷ cs) = ground (arith, trim_left-starts cs)

trim_right-starts : (s : Str) → starts_dash s ≡ false → starts_dash (trim_right s) ≡ false
unfolding trim_right
trim_right-starts [] h = refl
trim_right-starts (c ∷ cs) h = ground arith

-- Trimming the right end leaves the start alone, unless nothing is left.
trim_right-first :
    (s : Str) → is_empty (trim_right s) ≡ false → starts_dash (trim_right s) ≡ starts_dash s
unfolding trim_right
trim_right-first [] h = refl
trim_right-first (c ∷ cs) h = ground arith

trim_right-single : (s : Str) → single_dashes s ≡ true → single_dashes (trim_right s) ≡ true
unfolding trim_right
trim_right-single [] h = refl
trim_right-single (c ∷ cs) h = elim (Bool-cases (is_empty (trim_right cs))) [
  | inl e ↦ ground (arith, trim_right-single cs)
  | inr e ↦ ground (arith, trim_right-single cs, trim_right-first cs)
]

trim_right-ends : (s : Str) → ends_dash (trim_right s) ≡ false
unfolding trim_right
trim_right-ends [] = refl
trim_right-ends (c ∷ cs) = ground (arith, trim_right-ends cs)

-- Whatever the text, its normal form is made of lower case letters, digits and dashes, with no two
-- dashes side by side and none at either end.
normalize-IsLabel : (s : Str) → IsLabel (normalize s)
unfolding normalize
normalize-IsLabel s =
    let t = collapse (only_dns (replaced s)) in
    record {
      of_dns =
          trim_right-All Dns (trim_left t)
            (trim_left-All Dns t (collapse-All Dns _ (only_dns-All (replaced s))));
      single =
          trim_right-single (trim_left t)
            (trim_left-single t (collapse-single (only_dns (replaced s))));
      no_left = trim_right-starts (trim_left t) (trim_left-starts t);
      no_right = trim_right-ends (trim_left t);
    }

only_dns-replaced : (s : Str) → All Dns s → only_dns (replaced s) ≡ s
unfolding replaced only_dns
only_dns-replaced [] h = refl
only_dns-replaced (c ∷ cs) h =
    let same_char : to_dash (to_lower c) ≡ c = ground (arith, h.0) in
    rw same_char (rw h.0 (ap (◌∷◌ c) (only_dns-replaced cs h.1)))

collapse-id : (s : Str) → single_dashes s ≡ true → collapse s ≡ s
unfolding collapse
collapse-id [] h = refl
collapse-id (c ∷ cs) h = ground (arith, collapse-id cs)

trim_left-id : (s : Str) → starts_dash s ≡ false → trim_left s ≡ s
unfolding trim_left
trim_left-id [] h = refl
trim_left-id (c ∷ cs) h = ground arith

trim_right-id : (s : Str) → ends_dash s ≡ false → trim_right s ≡ s
unfolding trim_right
trim_right-id [] h = refl
trim_right-id (c ∷ []) h = ground arith
trim_right-id (c ∷ d ∷ cs) h = ground (arith, trim_right-id (d ∷ cs))

-- A text of that form is its own normal form; so normalizing twice is normalizing once.
pub normalize-IsLabel_id : (s : Str) → IsLabel s → normalize s ≡ s
unfolding normalize
normalize-IsLabel_id s h = rw (
  only_dns-replaced s h.of_dns,
  collapse-id s h.single,
  trim_left-id s h.no_left,
  trim_right-id s h.no_right,
)

-- Normalizing is idempotent: a normal form is its own normal form.
normalize-normalize : (s : Str) → normalize (normalize s) ≡ normalize s
normalize-normalize s = normalize-IsLabel_id (normalize s) (normalize-IsLabel s)
