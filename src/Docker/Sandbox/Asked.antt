-- ===== src/Docker/Sandbox/Asked.antt =====
-- The tags by which the driver's containers in a sandbox are listed, and what they say of a container.
use nanokube.Prelude.{
  ℕ, ◌≡◌, refl, sym, ap, ◌∙◌, Bool, true, false, ◌&&◌, Option, none, some, [], ◌∷◌, ◌++◌, map,
  arith, length, drop, drop-append, Str, same, same_refl, has_prefix, has_prefix-append, Dict,
  lookup, insert, value_of,
}
use nanokube.Tags.Builder.{
  Codec, TagBuilder, get, set, new_tag_builder, internal_entries, full_key, is_internal,
  key_managed_by, key_type, key_sandbox_uid, type_container,
}
use nanokube.Tags.Builder.Reading.{same-full_key}
use nanokube.Backend.Admit.Reading.{append_assoc}
use nanokube.Docker.Images.{has_char}
use nanokube.Docker.Listing.{label_filter, container_filters}

abbrev pub has_label : Option Str → Str → Bool
has_label none v = false
has_label (some w) v = same w v

abbrev pub has_labels : Dict Str → Dict Str → Bool
has_labels [] labels = true
has_labels ((k, v) ∷ kvs) labels = has_label (lookup k labels) v && has_labels kvs labels

abbrev pub matches : Dict Str → Option (Dict Str) → Bool
matches kvs none = false
matches kvs (some labels) = has_labels kvs labels

abbrev pub NoEquals : Dict Str → Type 0
NoEquals [] = Unit
NoEquals ((k, v) ∷ kvs) = (has_char b'=' k ≡ false) × NoEquals kvs

-- The specification: a pod is its sandbox and the driver's containers in it.
abbrev pub is_part : Str → Str → Str → Option (Dict Str) → Bool
is_part prefix driver id none = false
is_part prefix driver id (some labels) =
    let tb : TagBuilder = record { prefix = prefix; tags = labels } in
    same (get tb key_managed_by) driver
    && (same (get tb key_type) type_container && same (get tb key_sandbox_uid) id)

module _ (c : Codec) (prefix driver : Str) where
  -- The tags that a container's listing asks for.
  abbrev pub asked_tags : Str → Dict Str
  asked_tags id =
      (full_key prefix key_managed_by, driver)
      ∷ (full_key prefix key_type, type_container)
      ∷ (full_key prefix key_sandbox_uid, id)
      ∷ []

  behind_prefix :
      (key : Str)
      → has_prefix (full_key prefix key) (prefix ++ (b'.' ∷ []))
          && is_internal (drop (length (prefix ++ (b'.' ∷ []))) (full_key prefix key))
        ≡ is_internal key
  behind_prefix key = rw (sym (append_assoc prefix (b'.' ∷ []) key)) (
      rw (has_prefix-append (prefix ++ (b'.' ∷ [])) key, drop-append (prefix ++ (b'.' ∷ [])) key)
        refl)

  internal_entries-two :
      (kind : Str)
      → same driver [] ≡ false
      → same kind [] ≡ false
      → internal_entries prefix
          ((full_key prefix key_managed_by, driver) ∷ (full_key prefix key_type, kind) ∷ [])
        ≡ ((full_key prefix key_managed_by, driver) ∷ (full_key prefix key_type, kind) ∷ [])
  unfolding internal_entries same
  internal_entries-two kind there named =
      rw (there, named, behind_prefix key_managed_by, behind_prefix key_type) refl

  set-type :
      (kind : Str)
      → (set key_type kind (new_tag_builder prefix driver)).tags
        ≡ ((full_key prefix key_managed_by, driver) ∷ (full_key prefix key_type, kind) ∷ [])
  unfolding set new_tag_builder insert same
  set-type kind =
      rw
        (
          same-full_key prefix key_managed_by key_type,
          same-full_key prefix key_managed_by key_type,
          same_refl (full_key prefix key_type),
        )
        refl

  pub container_filters-asked_tags :
      (x : ℕ) (id : Str)
      → same driver [] ≡ false
      → container_filters prefix driver
          (some (record { id = []; pod_sandbox_id = x ∷ id; state = none; label_selector = [] }))
        ≡ map label_filter (asked_tags (x ∷ id))
  unfolding container_filters set new_tag_builder same
  container_filters-asked_tags x id there =
      ap
        (λ (t : Dict Str).
          map label_filter (internal_entries prefix t)
          ++ (label_filter (full_key prefix key_sandbox_uid, x ∷ id) ∷ []))
        (set-type type_container)
      ∙ ap
          (λ (t : Dict Str).
            map label_filter t ++ (label_filter (full_key prefix key_sandbox_uid, x ∷ id) ∷ []))
          (internal_entries-two type_container there refl)

has_char-append :
    (x : ℕ) (s t : Str) → has_char x s ≡ false → has_char x t ≡ false → has_char x (s ++ t) ≡ false
has_char-append x [] t h k = k
has_char-append x (c ∷ s) t h k = ground (arith, has_char-append x s t)

has_label-value_of :
    (o : Option Str) (v : Str) → same v [] ≡ false → has_label o v ≡ same (value_of o) v
unfolding same
has_label-value_of (some w) v h = refl
has_label-value_of none [] h = cc
has_label-value_of none (x ∷ v) h = refl

and_true : (b : Bool) → b && true ≡ b
and_true true = refl
and_true false = refl

module _ (c : Codec) (prefix driver : Str) (driver_named : same driver [] ≡ false) where
  pub matches-is_part :
      (x : ℕ) (id : Str) (o : Option (Dict Str))
      → matches (asked_tags c prefix driver (x ∷ id)) o ≡ is_part prefix driver (x ∷ id) o
  unfolding get same
  matches-is_part x id none = refl
  matches-is_part x id (some labels) =
      rw
        (
          has_label-value_of (lookup (full_key prefix key_managed_by) labels) driver driver_named,
          has_label-value_of (lookup (full_key prefix key_type) labels) type_container refl,
          has_label-value_of (lookup (full_key prefix key_sandbox_uid) labels) (x ∷ id) refl,
          and_true (same (value_of (lookup (full_key prefix key_sandbox_uid) labels)) (x ∷ id)),
        )
        refl

  pub asked_tags-NoEquals :
      (id : Str) → has_char b'=' prefix ≡ false → NoEquals (asked_tags c prefix driver id)
  asked_tags-NoEquals id h = (
    has_char-append b'=' prefix _ h refl,
    (has_char-append b'=' prefix _ h refl, (has_char-append b'=' prefix _ h refl, tt)),
  )
