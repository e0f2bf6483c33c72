-- ===== src/Network/Address/Arithmetic.antt =====
-- The byte loops against the number that an address stands for.
use nanokube.Prelude.{
  ℕ, zero, suc, ◌+◌, ◌*◌, ◌/◌, ◌%◌, ◌^◌, ◌≤◌, ◌<◌, ◌≡◌, refl, ap, ◌∙◌, subst, inl, inr, Bool, true,
  false, [], ◌∷◌, arith, ◌==◌, if◌then◌else◌, ==_iff, Bool-cases, length, All, Str,
}
use Prim.Native.Nat.{bit_or}
use native.Mathlib.Nat.{div-add-mod, pow-suc}
use nanokube.Network.Address.{
  add_carry, advance, fill_host, decrement, pinned_gateway, subnet_mask, mask_subnet,
}

-- The number that bytes stand for, and how many such numbers there are.
unfoldable pub value : Str → ℕ
value [] = 0
value (b ∷ bs) = b * 256 ^ length bs + value bs

abbrev pub IsBytes : Str → Type 0
IsBytes = All (λ b. b < 256)

add_carry-length : (ip : Str) (c : ℕ) → length (add_carry ip c).0 ≡ length ip
unfolding add_carry
add_carry-length [] c = refl
add_carry-length (b ∷ bs) c = ground (arith, add_carry-length bs c)

carry_step :
    (b q p v v' c : ℕ)
    → v' + q * p ≡ v + c
    → (b + q) % 256 * p + v' + (b + q) / 256 * (p * 256) ≡ b * p + v + c
carry_step b q p v v' c h = omega (arith, ap (λ (t : ℕ). t * p) (div-add-mod (b + q) 256))

add_carry-value :
    (ip : Str) (c : ℕ)
    → value (add_carry ip c).0 + (add_carry ip c).1 * 256 ^ length ip ≡ value ip + c
unfolding add_carry value
add_carry-value [] c = omega arith
add_carry-value (b ∷ bs) c =
    let p = 256 ^ length bs in
    let ih = add_carry-value bs c in
    let step = carry_step b (add_carry bs c).1 p (value bs) (value (add_carry bs c).0) c ih in
    rw (pow-suc 256 (length bs)) (ground (arith, ih, step, add_carry-length bs c))

add_carry-IsBytes : (ip : Str) (c : ℕ) → IsBytes ip → IsBytes (add_carry ip c).0
unfolding add_carry
add_carry-IsBytes [] c h = tt
add_carry-IsBytes (b ∷ bs) c h = ground (arith, add_carry-IsBytes bs c h.1)

value-lt : (ip : Str) → IsBytes ip → value ip < 256 ^ length ip
unfolding value
value-lt [] h = omega arith
value-lt (b ∷ bs) h = rw (pow-suc 256 (length bs)) (grind (arith, value-lt bs h.1))

-- Adding to an IPv4 address adds to its number, and wraps round behind the last address; four
-- bytes stay four bytes.
advance-value :
    (ip : Str) (n : ℕ)
    → length ip ≡ 4
    → IsBytes ip
    → (value (advance ip n) ≡ (value ip + n) % 4294967296)
      × (length (advance ip n) ≡ 4)
      × IsBytes (advance ip n)
unfolding advance
advance-value ip n four h =
    let sum : value (add_carry ip n).0 + (add_carry ip n).1 * 256 ^ 4 ≡ value ip + n =
      rw four at (add_carry-value ip n) in
    let small : value (add_carry ip n).0 < 256 ^ 4 =
      rw (add_carry-length ip n, four) at
        (value-lt (add_carry ip n).0 (add_carry-IsBytes ip n h)) in
    (omega (arith, sum, small), add_carry-length ip n ∙ four, add_carry-IsBytes ip n h)

-- Whether a test holds from zero up to a number, by running it.
holds_up_to : (ℕ → Bool) → ℕ → Bool
holds_up_to t zero = t 0
holds_up_to t (suc m) = if t (suc m) then holds_up_to t m else false

holds_up_to-at : (t : ℕ → Bool) (m k : ℕ) → k ≤ m → holds_up_to t m ≡ true → t k ≡ true
unfolding holds_up_to
holds_up_to-at t zero k small run = subst (λ i. t i ≡ true) (omega arith) run
holds_up_to-at t (suc m) k small run = elim (Bool-cases (k == suc m)) [
  | inl top ↦ ground (arith, ap t ((==_iff k (suc m)).0 top))
  | inr under ↦ ground (arith, holds_up_to-at t m k)
]

or_nothing : ℕ → Bool
or_nothing x = bit_or x 0 == x

or_fifteen : ℕ → Bool
or_fifteen x = bit_or (16 * x) 15 == 16 * x + 15

bit_or-zero : (x : ℕ) → x < 256 → bit_or x 0 ≡ x
unfolding holds_up_to or_nothing
bit_or-zero x h = (==_iff _ x).0 (holds_up_to-at or_nothing 255 x (omega arith) refl)

bit_or-fill : (x : ℕ) → x < 256 → x % 16 ≡ 0 → bit_or x 15 ≡ x + 15
unfolding holds_up_to or_fifteen
bit_or-fill x h e =
    let q : 16 * (x / 16) ≡ x = omega arith in
    rw q at ((==_iff _ _).0 (holds_up_to-at or_fifteen 15 (x / 16) (omega arith) refl))

-- The base of a subnet of sixteen addresses.
abbrev pub IsBase : Str → Type 0
IsBase (a ∷ b ∷ c ∷ d ∷ []) = (a < 256) × (b < 256) × (c < 256) × (d < 256) × (d % 16 ≡ 0)
IsBase _ = ⊥

module _ (a b c d : ℕ) (ha : a < 256) (hb : b < 256) (hc : c < 256) (hd : d < 256)
    (e : d % 16 ≡ 0) where
  fill_host-base : fill_host (a ∷ b ∷ c ∷ d ∷ []) subnet_mask ≡ a ∷ b ∷ c ∷ (d + 15) ∷ []
  unfolding fill_host
  fill_host-base =
      rw (bit_or-zero a ha, bit_or-zero b hb, bit_or-zero c hc, bit_or-fill d hd e) refl

  decrement-base : (decrement (a ∷ b ∷ c ∷ (d + 15) ∷ [])).0 ≡ a ∷ b ∷ c ∷ (d + 14) ∷ []
  unfolding decrement
  decrement-base = ground arith

  pinned_gateway-base : pinned_gateway (a ∷ b ∷ c ∷ d ∷ []) subnet_mask ≡ a ∷ b ∷ c ∷ (d + 14) ∷ []
  unfolding pinned_gateway
  pinned_gateway-base = ap (λ t. (decrement t).0) fill_host-base ∙ decrement-base

  subnet-base :
      (value (a ∷ b ∷ c ∷ (d + 14) ∷ []) ≡ value (a ∷ b ∷ c ∷ d ∷ []) + 14)
      × (mask_subnet (a ∷ b ∷ c ∷ (d + 14) ∷ []) ≡ a ∷ b ∷ c ∷ d ∷ [])
  unfolding value mask_subnet
  subnet-base = (omega arith, ground arith)

-- The gateway of the default network is the last host of its subnet: fourteen above the base, one
-- below the broadcast address, and an address that the mask takes back to the base.
pinned_gateway-value :
    (ip : Str)
    → IsBase ip
    → (value (pinned_gateway ip subnet_mask) ≡ value ip + 14)
      × (mask_subnet (pinned_gateway ip subnet_mask) ≡ ip)
pinned_gateway-value (a ∷ b ∷ c ∷ d ∷ []) (ha, hb, hc, hd, e) =
    rw (pinned_gateway-base a b c d ha hb hc hd e) (subnet-base a b c d ha hb hc hd e)
pinned_gateway-value _ h = absurd h
