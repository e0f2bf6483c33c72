-- ===== src/Network/Address.antt =====
-- The byte loops of pkg/nanokube/network.go over an IPv4 address, a list of four bytes with the
-- most significant first.
pub mod Arithmetic
use nanokube.Prelude.{
  ℕ, zero, suc, ◌+◌, ◌-◌, ◌*◌, ◌/◌, ◌%◌, ◌^◌, ◌≤◌, ◌<◌, ◌≡◌, refl, sym, ap, ◌∙◌, subst, ◌≢◌, ◌↔◌,
  ◌⊎◌, inl, inr, Bool, true, false, ◌&&◌, ◌||◌, not, Option, none, some, List, [], ◌∷◌, ◌++◌, map,
  arith, ltb, leb, ◌==◌, if◌then◌else◌, ltb→lt, lt→ltb, leb→le, ==_iff, Bool-cases, Option-cases,
  length, take, drop, length-append, length-drop, length-take, take-append, drop-append,
  take-append-drop, All, All-append, All-split, Str, str, same, same_iff, same_refl, same_ne,
  append_left_cancel, has_prefix, has_prefix-append, Dict, lookup, insert, copy_into, lookup-insert,
  lookup-insert_self, lookup-insert_ne, value_of, Returns, Returns-some, Result, ok, fail,
  Result-cases,
}
use Prim.Native.Nat.{bit_or}

-- `net.CIDRMask(v1.NetworkSubnetSize, 32)`, with 28 ones.
abbrev pub subnet_mask : Str
subnet_mask = 255 ∷ 255 ∷ 255 ∷ 240 ∷ []

-- `uint32(1) << uint(32 - v1.NetworkSubnetSize)`.
abbrev pub subnet_hosts : ℕ
subnet_hosts = 2 ^ (32 - 28)

-- Add `carry` from the last byte on, while there is any left; what is left at the first byte is
-- dropped by the source.
unfoldable pub add_carry : Str → ℕ → Str × ℕ
add_carry [] carry = ([], carry)
add_carry (b ∷ bs) carry =
    let (bs', c) = add_carry bs carry in
    if c == 0 then (b ∷ bs', 0) else (((b + c) % 256) ∷ bs', (b + c) / 256)

unfoldable pub advance : Str → ℕ → Str
unfolding add_carry
advance ip carry = (add_carry ip carry).0

-- `gateway[j] |= ^ipNet.Mask[j]`.
unfoldable pub fill_host : Str → Str → Str
fill_host (b ∷ bs) (m ∷ ms) = bit_or b (255 - m) ∷ fill_host bs ms
fill_host bs ms = bs

-- `gateway[j]--` from the last byte on, until a byte does not wrap; with whether all of them did.
unfoldable pub decrement : Str → Str × Bool
decrement [] = ([], true)
decrement (b ∷ bs) =
    let (bs', borrow) = decrement bs in
    let b' = (b + 255) % 256 in if borrow then (b' ∷ bs', b' == 255) else (b ∷ bs', false)

-- The gateway of the default network: the last address but one.
unfoldable pub pinned_gateway : Str → Str → Str
unfolding fill_host decrement
pinned_gateway ip mask = (decrement (fill_host ip mask)).0

-- `ip.Mask(mask)`, for a mask whose bytes are those of a /28: all ones but the last.
unfoldable pub mask_subnet : Str → Str
mask_subnet (a ∷ b ∷ c ∷ d ∷ []) = a ∷ b ∷ c ∷ (d - d % 16) ∷ []
mask_subnet ip = ip
