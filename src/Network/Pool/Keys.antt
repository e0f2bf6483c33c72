-- ===== src/Network/Pool/Keys.antt =====
-- The table of networks: every entry stands once, under its own address.
use nanokube.Prelude.{
  ◌≡◌, refl, sym, ap, ◌∙◌, subst, ◌≢◌, inl, inr, false, none, some, [], ◌∷◌, arith, if◌then◌else◌,
  Bool-cases, Option-cases, Str, same, same_iff, Dict, lookup, insert, lookup-insert,
}
use nanokube.Network.Pool.{Allocated, reclaimable}

abbrev pub IsKeyed : Dict Allocated → Type 0
IsKeyed [] = Unit {0}
IsKeyed ((k, a) ∷ m) = (a.net.ip ≡ k) × (lookup k m ≡ none) × IsKeyed m

pub insert-IsKeyed :
    (a : Allocated) (m : Dict Allocated) → IsKeyed m → IsKeyed (insert a.net.ip a m)
unfolding insert lookup
insert-IsKeyed a [] h = (refl, refl, tt)
insert-IsKeyed a ((k, b) ∷ m) (e, fresh, h) = elim (Bool-cases (same k a.net.ip)) [
  | inl hit ↦ rw hit (refl, subst (λ t. lookup t m ≡ none) ((same_iff k a.net.ip).0 hit) fresh, h)
  | inr miss ↦
      rw miss (
        e,
        lookup-insert a.net.ip k a m ∙ rw (same_flip k a.net.ip miss) fresh,
        insert-IsKeyed a m h,
      )
]
  where
    same_flip : (s t : Str) → same s t ≡ false → same t s ≡ false
    same_flip s t h = ground (arith, same_iff s t, same_iff t s)

some≢none : {A : Type 0} {a : A} → some a ≢ none
some≢none e = cc

-- What the scan finds is the entry under its address: free, and not the default network.
pub reclaimable-lookup :
    (did : Str) (m : Dict Allocated) {a : Allocated}
    → IsKeyed m
    → reclaimable did m ≡ some a
    → (lookup a.net.ip m ≡ some a) × (a.sandbox_uid ≡ none) × (a.id ≢ did)
unfolding reclaimable lookup
reclaimable-lookup did [] h e = cc
reclaimable-lookup did ((k, b) ∷ m) {a} (ke, fresh, h) e = elim (Bool-cases (same b.id did)) [
  | inl s ↦ later (reclaimable-lookup did m h (ground arith))
  | inr s ↦ elim (Option-cases b.sandbox_uid) [
    | inr (u, p) ↦ later (reclaimable-lookup did m h (ground arith))
    | inl p ↦
        let here : b ≡ a = ground arith in
        subst
          (λ x.
            ((if same k x.net.ip then some b else lookup x.net.ip m) ≡ some x)
            × (x.sandbox_uid ≡ none)
            × (x.id ≢ did))
          here (rw ((same_iff k b.net.ip).1 (sym ke)) refl, p, λ q. cc (s, (same_iff b.id did).1 q))
  ]
]
  where
    later :
        ((lookup a.net.ip m ≡ some a) × (a.sandbox_uid ≡ none) × (a.id ≢ did))
        → ((if same k a.net.ip then some b else lookup a.net.ip m) ≡ some a)
          × (a.sandbox_uid ≡ none)
          × (a.id ≢ did)
    later (found, free, other) = (
      elim (Bool-cases (same k a.net.ip)) [
        | inr miss ↦ rw miss found
        | inl hit ↦ absurd (
            some≢none
              (sym found ∙ subst (λ x. lookup x m ≡ none) ((same_iff k a.net.ip).0 hit) fresh))
      ],
      free,
      other,
    )

-- It finds one if there is one.
pub reclaimable_complete :
    (did k : Str) (m : Dict Allocated) {a : Allocated}
    → lookup k m ≡ some a
    → a.sandbox_uid ≡ none
    → a.id ≢ did
    → (b : Allocated) × (reclaimable did m ≡ some b)
unfolding reclaimable lookup
reclaimable_complete did k [] e f g = cc
reclaimable_complete did k ((j, b) ∷ m) {a} e f g = elim (Bool-cases (same b.id did)) [
  | inl s ↦ rw s (reclaimable_complete did k m {a = a} (ground (arith, same_iff b.id did)) f g)
  | inr s ↦ rw s (elim (Option-cases b.sandbox_uid) [
    | inl p ↦ (b, ground arith)
    | inr (u, p) ↦ rw p (reclaimable_complete did k m {a = a} (ground arith) f g)
  ])
]

pub lookup-IsKeyed :
    (k : Str) (m : Dict Allocated) {a : Allocated} → IsKeyed m → lookup k m ≡ some a → a.net.ip ≡ k
unfolding lookup
lookup-IsKeyed k [] h e = cc
lookup-IsKeyed k ((j, b) ∷ m) {a} (key, fresh, h) e = elim (Bool-cases (same j k)) [
  | inl hit ↦
      let here : b ≡ a = ground arith in ap (λ x. x.net.ip) (sym here) ∙ key ∙ (same_iff j k).0 hit
  | inr miss ↦ lookup-IsKeyed k m {a = a} h (ground arith)
]
