-- ===== src/Prelude/Maps.antt =====
-- A Go map with string keys, as an association list; a missing key reads as `none`.
use mathlib.Core.List.{List, [], ◌∷◌}
use mathlib.Core.Bool.{false}
use mathlib.Core.Logic.{◌≢◌, inl, inr}
use mathlib.Core.Option.{Option, none, some}
use mathlib.Core.Path.{◌≡◌, refl, ◌∙◌, subst}
use native.Mathlib.Omega.{arith}
use nanokube.Prelude.Booleans.{if◌then◌else◌, Bool-cases}
use nanokube.Prelude.Text.{Str, same, same_iff, same_refl, same_ne}

abbrev pub Dict {ℓ} : Type ℓ → Type ℓ
Dict V = List (Str × V)

module _ {ℓ} {V : Type ℓ} where
  unfoldable pub lookup : Str → Dict V → Option V
  unfolding same
  lookup k [] = none
  lookup k ((j, v) ∷ m) = if same j k then some v else lookup k m

  unfoldable pub insert : Str → V → Dict V → Dict V
  unfolding same
  insert k v [] = (k, v) ∷ []
  insert k v ((j, w) ∷ m) = if same j k then (k, v) ∷ m else (j, w) ∷ insert k v m

  -- `maps.Copy dst src`.
  unfoldable pub copy_into : Dict V → Dict V → Dict V
  copy_into dst [] = dst
  copy_into dst ((k, v) ∷ src) = copy_into (insert k v dst) src

  pub lookup-insert :
      (k j : Str) (v : V) (m : Dict V)
      → lookup j (insert k v m) ≡ (if same k j then some v else lookup j m)
  unfolding lookup insert
  lookup-insert k j v [] = refl
  lookup-insert k j v ((i, w) ∷ m) =
      ground (arith, same_iff k j, same_iff i k, same_iff i j, lookup-insert k j v m)

  pub lookup-insert_self : (k : Str) (v : V) (m : Dict V) → lookup k (insert k v m) ≡ some v
  lookup-insert_self k v m = simp (lookup-insert, same_refl)

  pub lookup-insert_ne :
      (k j : Str) (v : V) (m : Dict V) → k ≢ j → lookup j (insert k v m) ≡ lookup j m
  lookup-insert_ne k j v m h = lookup-insert k j v m ∙ rw (same_ne k j h)

  -- Every key stands once, as in a Go map.
  abbrev pub IsMap : Dict V → Type ℓ
  IsMap [] = Unit
  IsMap ((k, v) ∷ m) = (lookup k m ≡ none) × IsMap m

  pub insert-IsMap : (k : Str) (v : V) (m : Dict V) → IsMap m → IsMap (insert k v m)
  unfolding insert lookup
  insert-IsMap k v [] h = (refl, tt)
  insert-IsMap k v ((j, w) ∷ m) (fresh, h) = elim (Bool-cases (same j k)) [
    | inl hit ↦ rw hit (subst (λ t. lookup t m ≡ none) ((same_iff j k).0 hit) fresh, h)
    | inr miss ↦
        rw miss (lookup-insert k j v m ∙ rw (same_flip j k miss) fresh, insert-IsMap k v m h)
  ]
    where
      same_flip : (s t : Str) → same s t ≡ false → same t s ≡ false
      same_flip s t h = ground (arith, same_iff s t, same_iff t s)

  abbrev pub or_else : Option V → Option V → Option V
  or_else none o = o
  or_else (some v) o = some v

  pub lookup-copy_into :
      (j : Str) (dst src : Dict V)
      → IsMap src
      → lookup j (copy_into dst src) ≡ or_else (lookup j src) (lookup j dst)
  unfolding copy_into lookup
  lookup-copy_into j dst [] h = refl
  lookup-copy_into j dst ((k, v) ∷ src) (fresh, h) = elim (Bool-cases (same k j)) [
    | inl hit ↦
        let gone : lookup j src ≡ none =
          subst (λ t. lookup t src ≡ none) ((same_iff k j).0 hit) fresh in
        lookup-copy_into j (insert k v dst) src h
        ∙ rw (gone, hit) (lookup-insert k j v dst ∙ rw hit)
    | inr miss ↦
        lookup-copy_into j (insert k v dst) src h
        ∙ rw (miss, lookup-insert k j v dst) (rw miss refl)
  ]

-- `m[k]` of a map of strings: a missing key reads as the empty string.
abbrev pub value_of : Option Str → Str
value_of none = []
value_of (some v) = v
