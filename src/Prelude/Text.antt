-- ===== src/Prelude/Text.antt =====
-- Go strings as lists of code points (bytes where the source walks bytes), with a Boolean equality.
use Prim.Native.Char.{code}
use Prim.Native.Nat.{ℕ}
use Prim.Native.String.{String}
use mathlib.Core.Bool.{Bool, true, false, ◌&&◌, ◌||◌}
use mathlib.Core.List.{List, [], ◌∷◌, ◌++◌}
use mathlib.Core.Logic.{◌↔◌, ◌≢◌}
use mathlib.Core.Path.{◌≡◌, refl}
use native.Mathlib.Omega.{arith}
use nanokube.Prelude.Booleans.{◌==◌}

abbrev pub Str : Type 0
Str = List ℕ

-- A literal of the source.
abbrev pub str : String → Str
str String.[] = []
str (String.◌∷◌ c s) = code c ∷ str s

unfoldable pub same : Str → Str → Bool
same [] [] = true
same (x ∷ xs) (y ∷ ys) = x == y && same xs ys
same _ _ = false

pub same_iff : (s t : Str) → (same s t ≡ true) ↔ (s ≡ t)
unfolding same
same_iff (x ∷ s) (y ∷ t) = ground (arith, same_iff s t)
same_iff _ _ = ground arith

pub same_refl : (s : Str) → same s s ≡ true
same_refl s = (same_iff s s).1 refl

pub same_ne : (s t : Str) → s ≢ t → same s t ≡ false
same_ne s t h = ground (arith, same_iff s t)

-- What two texts share in front can be taken away.
pub append_left_cancel : (p s t : Str) → p ++ s ≡ p ++ t → s ≡ t
append_left_cancel [] s t e = e
append_left_cancel (x ∷ p) s t e = append_left_cancel p s t (ground arith)

-- `strings.HasPrefix s p`.
unfoldable pub has_prefix : Str → Str → Bool
has_prefix s [] = true
has_prefix [] (y ∷ p) = false
has_prefix (x ∷ s) (y ∷ p) = x == y && has_prefix s p

pub has_prefix-append : (p s : Str) → has_prefix (p ++ s) p ≡ true
unfolding has_prefix
has_prefix-append [] s = refl
has_prefix-append (x ∷ p) s = ground (arith, has_prefix-append p s)

abbrev pub member : Str → List Str → Bool
member x [] = false
member x (y ∷ ys) = same x y || member x ys
