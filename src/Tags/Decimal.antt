-- ===== src/Tags/Decimal.antt =====
-- The decimal numbers of the attempt tag: `fmt.Sprintf("%d", _)` and `strconv.ParseUint(_, 10, 32)`.
use nanokube.Prelude.{
  ℕ, zero, suc, ◌+◌, ◌-◌, ◌*◌, ◌/◌, ◌%◌, ◌<◌, ◌≡◌, ◌∙◌, inl, inr, ◌&&◌, not, [], ◌∷◌, arith, ltb,
  leb, if◌then◌else◌, ltb→lt, Bool-cases, Str, same, false, refl,
}

-- The digits of a number in front of a text, on fuel.
unfoldable pub digits : ℕ → ℕ → Str → Str
digits zero n rest = rest
digits (suc fuel) n rest =
    if ltb n 10 then (48 + n) ∷ rest else digits fuel (n / 10) ((48 + n % 10) ∷ rest)

abbrev pub decimal : ℕ → Str
decimal n = digits (suc n) n []

-- `fmt.Sprintf("%d", _)` and `strconv.FormatInt(_, 10)` of a signed number.
pub data ℤ : Type 0 where
  pos negsuc : ℕ → ℤ

unfoldable pub format_int : ℤ → Str
format_int (pos n) = decimal n
format_int (negsuc n) = b'-' ∷ decimal (suc n)

-- The greatest 32-bit number.
abbrev pub max_uint32 : ℕ
max_uint32 = 4294967295

-- The loop of ParseUint over the digits, with its value alone: zero on a syntax error, and the
-- greatest number once the value is out of range.
unfoldable pub parse_from : ℕ → Str → ℕ
parse_from acc [] = acc
parse_from acc (c ∷ cs) =
    let next = parse_from (acc * 10 + (c - 48)) cs in
    if not (leb 48 c && leb c 57)
    then 0
    else if ltb max_uint32 (acc * 10 + (c - 48))
    then max_uint32
    else next

abbrev pub parse_uint32 : Str → ℕ
parse_uint32 s = parse_from 0 s

parse_from-digit :
    (acc d : ℕ) (rest : Str)
    → d < 10
    → parse_from acc ((48 + d) ∷ rest)
      ≡ (if ltb max_uint32 (acc * 10 + d) then max_uint32 else parse_from (acc * 10 + d) rest)
unfolding parse_from
parse_from-digit acc d rest h = let back : (48 + d) - 48 ≡ d = omega arith in rw back (ground arith)

parse_from-digits :
    (fuel n : ℕ) (rest : Str)
    → n < fuel
    → parse_from 0 (digits fuel n rest)
      ≡ (if ltb max_uint32 n then max_uint32 else parse_from n rest)
unfolding digits
parse_from-digits zero n rest h = absurd (omega arith)
parse_from-digits (suc fuel) n rest h = elim (Bool-cases (ltb n 10)) [
  | inl small ↦
      let only : 0 * 10 + n ≡ n = omega arith in
      rw small (rw only at (parse_from-digit 0 n rest (ltb→lt n 10 small)))
  | inr big ↦
      let whole : n / 10 * 10 + n % 10 ≡ n = omega arith in
      let ih = parse_from-digits fuel (n / 10) ((48 + n % 10) ∷ rest) (ground arith) in
      let last : parse_from (n / 10) ((48 + n % 10) ∷ rest)
          ≡ (if ltb max_uint32 n then max_uint32 else parse_from n rest) =
        rw whole at (parse_from-digit (n / 10) (n % 10) rest (omega arith)) in
      rw big (ih ∙ ground (arith, last))
]

-- A number that is printed and read back is itself, or the greatest 32-bit number if that is less.
pub parse_uint32-decimal :
    (n : ℕ) → parse_uint32 (decimal n) ≡ (if ltb max_uint32 n then max_uint32 else n)
unfolding parse_from
parse_uint32-decimal n = parse_from-digits (suc n) n [] (omega arith)

digits-not_empty : (fuel n c : ℕ) (rest : Str) → same (digits fuel n (c ∷ rest)) [] ≡ false
unfolding digits same
digits-not_empty zero n c rest = refl
digits-not_empty (suc fuel) n c rest = elim (Bool-cases (ltb n 10)) [
  | inl small ↦ rw small refl
  | inr big ↦ rw big (digits-not_empty fuel (n / 10) (48 + n % 10) (c ∷ rest))
]

-- A number has at least one digit.
pub format_int-not_empty : (n : ℤ) → same (format_int n) [] ≡ false
unfolding format_int digits same
format_int-not_empty (pos n) = elim (Bool-cases (ltb n 10)) [
  | inl small ↦ rw small refl
  | inr big ↦ rw big (digits-not_empty n (n / 10) (48 + n % 10) [])
]
format_int-not_empty (negsuc n) = refl
