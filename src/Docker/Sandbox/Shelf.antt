-- ===== src/Docker/Sandbox/Shelf.antt =====
-- A small runtime to try the sandbox's life on: it has room for an old sandbox, for a container in
-- it and for a new sandbox.
use nanokube.Prelude.{
  ◌≡◌, refl, sym, ap, ◌∙◌, subst, ◌≢◌, inl, inr, Bool, true, false, ◌&&◌, Option, none, some, List,
  [], ◌∷◌, ◌++◌, map, arith, ◌==◌, if◌then◌else◌, Bool-cases, Str, str, same, same_iff, same_refl,
  same_ne, member, Dict, lookup, Result, ok, fail,
}
use nanokube.Docker.Images.{image_not_found, has_char}
use nanokube.Docker.Listing.{Summary, label_filter}
use nanokube.Docker.Sandbox.Status.{SandboxInspect}
use nanokube.Docker.Sandbox.Life.{Engine}
use nanokube.Docker.Sandbox.Asked.{has_label, has_labels, matches, NoEquals}
use nanokube.Docker.Sandbox.Removal.{Boxes, ids, Holds}
use nanokube.Docker.Sandbox.Rerun.{Adds}

pub record Shelf : Type 0 where
  pub old : Option (Dict Str)
  pub inner : Option (Dict Str)
  pub fresh : Option (Dict Str)

abbrev pub old_id : Str
old_id = str "old"

abbrev pub inner_id : Str
inner_id = str "inner"

abbrev pub fresh_id : Str
fresh_id = str "fresh"

abbrev pub entry : Str → Option (Dict Str) → Boxes
entry id none = []
entry id (some labels) = (id, labels) ∷ []

abbrev pub boxes : Shelf → Boxes
boxes s = entry old_id s.old ++ (entry inner_id s.inner ++ (entry fresh_id s.fresh ++ []))

abbrev pub keep : Str → Str → Option (Dict Str) → Option (Dict Str)
keep id slot o = if same slot id then none else o

-- A text at its first equals sign.
unfoldable pub split : Str → Str × Str
split [] = ([], [])
split (c ∷ cs) = if c == b'=' then ([], cs) else (let (k, v) = split cs in (c ∷ k, v))

unfoldable pub passes : List (Str × Str) → Dict Str → Bool
unfolding split
passes [] labels = true
passes ((name, t) ∷ fs) labels =
    has_label (lookup (split t).0 labels) (split t).1 && passes fs labels

abbrev pub summary : Str → Dict Str → Summary
summary id labels = record {
  id = id;
  labels = labels;
  state = str "running";
  image = str "busybox";
  image_id = str "sha";
  created = 7;
}

abbrev pub shown : Str → List (Str × Str) → Option (Dict Str) → List Summary
shown id fs none = []
shown id fs (some labels) = if passes fs labels then summary id labels ∷ [] else []

abbrev pub inspected : Str → Option (Dict Str) → Result Str SandboxInspect
inspected id none = fail (str "no such container")
inspected id (some labels) = ok (record {
  id = id;
  created = [];
  labels = labels;
  status = str "running";
  host_config = none;
  network_settings = none;
})

abbrev pub engine : Engine Shelf
engine = record {
  inspect = λ s id. inspected id (lookup id (boxes s));
  list = λ s fs.
      ok
        (shown old_id fs s.old ++ (shown inner_id fs s.inner ++ (shown fresh_id fs s.fresh ++ [])));
  create = λ s w. (record s { fresh = some w.labels }, ok fresh_id);
  start_box = λ s id. (s, none);
  stop_box = λ s id. (s, none);
  remove_box = λ s id. (
    record {
      old = keep id old_id s.old;
      inner = keep id inner_id s.inner;
      fresh = keep id fresh_id s.fresh;
    },
    none,
  );
  image_inspect = λ s ref. fail image_not_found;
  image_pull = λ s ref. (s, some (str "no registry"));
  log_answers = λ s id. record { mkdir_ok = true; open_ok = true; source_ok = true };
}

removed_entry :
    (id slot j : Str) (o : Option (Dict Str)) (rest rest' : Boxes)
    → lookup j rest' ≡ (if same id j then none else lookup j rest)
    → lookup j (entry slot (keep id slot o) ++ rest')
      ≡ (if same id j then none else lookup j (entry slot o ++ rest))
unfolding lookup
removed_entry id slot j none rest rest' h = elim (Bool-cases (same slot id)) [
  | inl a ↦ rw a h
  | inr a ↦ rw a h
]
removed_entry id slot j (some labels) rest rest' h = elim (Bool-cases (same slot id)) [
  | inl a ↦ rw a (ground (arith, h, same_iff slot id, same_iff slot j, same_iff id j))
  | inr a ↦ rw a (ground (arith, h, same_iff slot id, same_iff slot j, same_iff id j))
]

split-equals : (k v : Str) → has_char b'=' k ≡ false → split (k ++ (b'=' ∷ v)) ≡ (k, v)
unfolding split
split-equals [] v h = refl
split-equals (c ∷ k) v h = elim (Bool-cases (c == b'=')) [
  | inl a ↦ ground arith
  | inr a ↦ rw a (rw (split-equals k v (ground arith)) refl)
]

passes-has_labels :
    (kvs labels : Dict Str)
    → NoEquals kvs
    → passes (map label_filter kvs) labels ≡ has_labels kvs labels
unfolding passes
passes-has_labels [] labels h = refl
passes-has_labels ((k, v) ∷ kvs) labels (h, hs) =
    rw (split-equals k v h, passes-has_labels kvs labels hs) refl

listed_entry :
    (slot j : Str) (kvs : Dict Str) (o : Option (Dict Str)) (ss : List Summary) (rest : Boxes)
    → NoEquals kvs
    → lookup slot rest ≡ none
    → member j (ids ss) ≡ matches kvs (lookup j rest)
    → member j (ids (shown slot (map label_filter kvs) o ++ ss))
      ≡ matches kvs (lookup j (entry slot o ++ rest))
unfolding lookup
listed_entry slot j kvs none ss rest plain apart h = h
listed_entry slot j kvs (some labels) ss rest plain apart h = elim (Bool-cases (same slot j)) [
  | inl at ↦
      let e : slot ≡ j = (same_iff slot j).0 at in
      let none_left : lookup j rest ≡ none = subst (λ t. lookup t rest ≡ none) e apart in
      let no_other : member j (ids ss) ≡ false = h ∙ ap (matches kvs) none_left in
      rw (at, passes-has_labels kvs labels plain)
        (when_at (has_labels kvs labels) (subst (λ t. same t slot ≡ true) e (same_refl slot))
          no_other)
  | inr off ↦
      let flipped : same j slot ≡ false = ground (arith, same_iff slot j, same_iff j slot) in
      rw (off, passes-has_labels kvs labels plain) (when_off (has_labels kvs labels) flipped)
]
  where
    when_at :
        (b : Bool)
        → same j slot ≡ true
        → member j (ids ss) ≡ false
        → member j (ids ((if b then summary slot labels ∷ [] else []) ++ ss)) ≡ b
    when_at true y n = rw y refl
    when_at false y n = n

    when_off :
        (b : Bool)
        → same j slot ≡ false
        → member j (ids ((if b then summary slot labels ∷ [] else []) ++ ss))
          ≡ matches kvs (lookup j rest)
    when_off true y = rw y h
    when_off false y = h

entry-apart :
    (slot other : Str) (o : Option (Dict Str)) (rest : Boxes)
    → same other slot ≡ false
    → lookup slot rest ≡ none
    → lookup slot (entry other o ++ rest) ≡ none
unfolding lookup
entry-apart slot other none rest d h = h
entry-apart slot other (some labels) rest d h = rw d h

pub engine-Holds : Holds engine boxes
unfolding lookup same
engine-Holds = record {
  removes = λ s id j. removed_entry id old_id j s.old _ _ (
      removed_entry id inner_id j s.inner _ _
        (removed_entry id fresh_id j s.fresh [] [] (nothing (same id j))));
  lists = λ s kvs plain j.
      listed_entry old_id j kvs s.old _ _ plain
        (entry-apart old_id inner_id s.inner _ refl
          (entry-apart old_id fresh_id s.fresh [] refl refl))
        (listed_entry inner_id j kvs s.inner _ _ plain
          (entry-apart inner_id fresh_id s.fresh [] refl refl)
          (listed_entry fresh_id j kvs s.fresh [] [] plain refl refl));
}
  where
    nothing : (b : Bool) → ◌≡◌ {A = Option (Dict Str)} none (if b then none else none)
    nothing true = refl
    nothing false = refl

pub engine-Adds : Adds engine boxes
unfolding lookup
engine-Adds = record {
  creates = λ s w j other.
      created_apart j s.old s.inner s.fresh w.labels (λ (e : fresh_id ≡ j). other (ap ok e));
  starts = λ s id. refl;
  pulls = λ s ref. refl;
}
  where
    same_rest :
        (slot j : Str) (o : Option (Dict Str)) (r r' : Boxes)
        → lookup j r ≡ lookup j r'
        → lookup j (entry slot o ++ r) ≡ lookup j (entry slot o ++ r')
    same_rest slot j none r r' h = h
    same_rest slot j (some labels) r r' h = ap (λ t. if same slot j then some labels else t) h

    nothing_at :
        (j : Str) (o : Option (Dict Str)) → fresh_id ≢ j → lookup j (entry fresh_id o ++ []) ≡ none
    nothing_at j none d = refl
    nothing_at j (some labels) d = rw (same_ne fresh_id j d) refl

    created_apart :
        (j : Str) (a b f : Option (Dict Str)) (labels : Dict Str)
        → fresh_id ≢ j
        → lookup j (boxes (record { old = a; inner = b; fresh = some labels }))
          ≡ lookup j (boxes (record { old = a; inner = b; fresh = f }))
    created_apart j a b f labels d =
        same_rest old_id j a _ _
          (same_rest inner_id j b _ _ (nothing_at j (some labels) d ∙ sym (nothing_at j f d)))
