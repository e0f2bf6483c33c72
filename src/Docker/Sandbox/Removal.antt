-- ===== src/Docker/Sandbox/Removal.antt =====
-- RemovePodSandbox removes a pod from the runtime.
use nanokube.Prelude.{
  ◌≡◌, refl, ap, ◌∙◌, Bool, true, false, ◌||◌, Option, none, some, List, [], ◌∷◌, map, arith,
  if◌then◌else◌, Str, same, same_iff, member, Dict, lookup, Result, ok, fail,
}
use nanokube.Network.Pool.{Service, Network, Allocated, from_status}
use nanokube.Tags.Builder.{Codec}
use nanokube.Docker.Images.{has_char}
use nanokube.Docker.Sandbox.Asked.{
  matches, NoEquals, is_part, asked_tags, container_filters-asked_tags, matches-is_part,
  asked_tags-NoEquals,
}
use nanokube.Docker.Listing.{
  Summary, Container, containers_of, container_of, label_filter, listed, all_match, match_labels,
  list_containers,
}
use nanokube.Docker.Sandbox.Life.{
  Settings, Engine, EngineError, not_found, engine_error, Driver, remove_container, remove_all,
  remove_pod_sandbox, containers_in, after_end, give_back, pod_sandbox_status, whereabouts,
  listed_or_none,
}

-- What the runtime holds: the labels of its containers, by their ids.
abbrev pub Boxes : Type 0
Boxes = Dict (Dict Str)

abbrev pub ids : List Summary → List Str
ids ss = map (λ (s : Summary). s.id) ss

abbrev pub Lists : Boxes → Dict Str → Result Str (List Summary) → Type 0
Lists b kvs (fail e) = ⊥
Lists b kvs (ok ss) = (j : Str) → member j (ids ss) ≡ matches kvs (lookup j b)

-- A runtime seen by what it holds: a forced removal takes one container away, or finds none, and a
-- list under filters on labels gives the containers that have all of these labels.
pub record Holds {S : Type 0} (e : Engine S) (boxes : S → Boxes) : Type 0 where
  pub removes :
      (s : S) (id j : Str)
      → lookup j (boxes (e.remove_box s id).0) ≡ (if same id j then none else lookup j (boxes s))
  pub lists :
      (s : S) (kvs : Dict Str)
      → NoEquals kvs
      → Lists (boxes s) kvs (e.list s (map label_filter kvs))

unfoldable pub without_pod : Str → Str → Str → Boxes → Str → Option (Dict Str)
without_pod prefix driver id b j =
    if same id j || is_part prefix driver id (lookup j b) then none else lookup j b

module _ {S N : Type 0} (e : Engine S) (boxes : S → Boxes) (law : Holds e boxes) where
  after_end-engine :
      (id : Str) (d : Driver S N) (err : Option EngineError)
      → (after_end id d err).0.engine ≡ d.engine
  after_end-engine id d none = refl
  after_end-engine id d (some not_found) = refl
  after_end-engine id d (some (engine_error m)) = refl

  remove_container-boxes :
      (id j : Str) (d : Driver S N)
      → lookup j (boxes (remove_container e id d).0.engine)
        ≡ (if same id j then none else lookup j (boxes d.engine))
  unfolding remove_container
  remove_container-boxes id j d =
      let (s, err) = e.remove_box d.engine id in
      ap (λ t. lookup j (boxes t)) (after_end-engine id (record d { engine = s }) err)
      ∙ law.removes d.engine id j

  remove_all-boxes :
      (cs : List Container) (j : Str) (d : Driver S N)
      → lookup j (boxes (remove_all e cs d).engine)
        ≡ (if member j (map (λ (c : Container). c.id) cs) then none else lookup j (boxes d.engine))
  unfolding remove_all
  remove_all-boxes [] j d = refl
  remove_all-boxes (c ∷ cs) j d =
      remove_all-boxes cs j (remove_container e c.id d).0
      ∙ rw (remove_container-boxes c.id j d) (ground (arith, same_iff c.id j, same_iff j c.id))

module _ (c : Codec) (prefix driver : Str) where
  containers_of-ids :
      (ss : List Summary)
      → map (λ (x : Container). x.id) (containers_of c prefix driver [] ss) ≡ ids ss
  unfolding containers_of match_labels all_match container_of
  containers_of-ids [] = refl
  containers_of-ids (s ∷ ss) = ap (◌∷◌ s.id) (containers_of-ids ss)

  listed-ids :
      (b : Boxes) (kvs : Dict Str) (r : Result Str (List Summary)) (j : Str)
      → Lists b kvs r
      → member j (map (λ (x : Container). x.id) (listed_or_none (listed c prefix driver [] r)))
        ≡ matches kvs (lookup j b)
  listed-ids b kvs (fail err) j l = absurd l
  listed-ids b kvs (ok ss) j l = ap (member j) (containers_of-ids ss) ∙ l j

give_back-engine :
    {S N : Type 0} (d : Driver S N) (r : Network N × Result Str (Option Allocated))
    → (give_back d r).engine ≡ d.engine
give_back-engine d (n, ok (some a)) = refl
give_back-engine d (n, ok none) = refl
give_back-engine d (n, fail err) = refl

-- RemovePodSandbox of a sandbox's id takes the sandbox and every container that carries the
-- driver's tags for it away from what the runtime holds, and leaves everything else as it is. The
-- runtime removes what it is told to and lists by labels; the id and the driver's name are not
-- empty, and the prefix of the tags has no equals sign.
pub remove_pod_sandbox-without_pod :
    {S N : Type 0} (k : Settings) (e : Engine S) (v : Service N) (boxes : S → Boxes) (id : Str)
    (d : Driver S N) (j : Str)
    → Holds e boxes
    → same k.driver [] ≡ false
    → has_char b'=' k.prefix ≡ false
    → same id [] ≡ false
    → lookup j (boxes (remove_pod_sandbox k e v id d).engine)
      ≡ without_pod k.prefix k.driver id (boxes d.engine) j
unfolding remove_pod_sandbox without_pod list_containers same
remove_pod_sandbox-without_pod k e v boxes [] d j law driver_named plain there = cc
remove_pod_sandbox-without_pod k e v boxes (x ∷ id) d j law driver_named plain there =
    let c = k.codec in
    let asked = asked_tags c k.prefix k.driver (x ∷ id) in
    let cs = listed_or_none (containers_in k e d.engine (x ∷ id)) in
    let members : member j (map (λ (y : Container). y.id) cs)
        ≡ is_part k.prefix k.driver (x ∷ id) (lookup j (boxes d.engine)) =
      ap
        (λ f. member j (
          map (λ (y : Container). y.id)
            (listed_or_none (listed c k.prefix k.driver [] (e.list d.engine f)))))
        (container_filters-asked_tags c k.prefix k.driver x id driver_named)
      ∙ listed-ids c k.prefix k.driver (boxes d.engine) asked
          (e.list d.engine (map label_filter asked)) j
          (law.lists d.engine asked
            (asked_tags-NoEquals c k.prefix k.driver driver_named (x ∷ id) plain))
      ∙ matches-is_part c k.prefix k.driver driver_named x id (lookup j (boxes d.engine)) in
    let removed = (remove_container e (x ∷ id) (remove_all e cs d)).0 in
    let status = pod_sandbox_status k e d.engine (x ∷ id) in
    ap (λ s. lookup j (boxes s))
      (give_back-engine removed (from_status v (some (whereabouts k status)) removed.network))
    ∙ remove_container-boxes e boxes law (x ∷ id) j (remove_all e cs d)
    ∙ ap (λ o. if same (x ∷ id) j then none else o) (remove_all-boxes e boxes law cs j d)
    ∙ ap (λ b. if same (x ∷ id) j then none else if b then none else lookup j (boxes d.engine))
        members
    ∙ or_if (same (x ∷ id) j) (is_part k.prefix k.driver (x ∷ id) (lookup j (boxes d.engine)))
  where
    or_if :
        (p q : Bool)
        → (if p then none else if q then none else lookup j (boxes d.engine))
          ≡ (if p || q then none else lookup j (boxes d.engine))
    or_if true q = refl
    or_if false q = refl
