-- ===== src/Process/Drain.antt =====
-- drainNode of pkg/command.go: the node is cordoned, its pods are evicted and waited for, and it is
-- marked as not ready. What the API server answers is a parameter: to each request, and in each
-- turn of the poll to the question whether a pod is gone; its answer to the mark is only logged.
-- The turns end as the context does.
use nanokube.Prelude.{
  ◌≡◌, refl, sym, ap, ◌∙◌, Bool, true, false, ◌||◌, not, Option, none, some, List, [], ◌∷◌, ◌++◌,
  map, if◌then◌else◌, Str, str, same, Dict, lookup, value_of, Result, ok, fail,
}

pub record DrainPod : Type 0 where
  pub name : Str
  pub namespace : Str
  pub annotations : Dict Str
  -- the kinds of its owners
  pub owners : List Str

pub record DrainAnswers : Type 0 where
  pub cordon : Str → Option Str
  pub list_pods : Str → Result Str (List DrainPod)
  pub evict : DrainPod → Option Str

-- Whether a pod is not found, in a turn.
abbrev pub Turns : Type 0
Turns = List (DrainPod → Bool)

-- The requests that are made, less those of the poll.
pub data DrainCall : Type 0 where
  cordons : Str → DrainCall
  lists : Str → DrainCall
  evicts : DrainPod → DrainCall
  marks_not_ready : Str → DrainCall

pub record Drained : Type 0 where
  pub result : Option Str
  pub calls : List DrainCall
  -- the pods that are waited for as the poll ends
  pub left : List DrainPod
  pub drain_done : Bool

abbrev pub mirror_annotation : Str
mirror_annotation = str "kubernetes.io/config.mirror"

abbrev pub of_daemon_set : List Str → Bool
of_daemon_set [] = false
of_daemon_set (kind ∷ kinds) = same kind (str "DaemonSet") || of_daemon_set kinds

-- A mirror pod and a pod of a daemon set stay.
abbrev pub stays : DrainPod → Bool
stays pod =
    not (same (value_of (lookup mirror_annotation pod.annotations)) []) || of_daemon_set pod.owners

-- The loop over the pods: the evictions, and the pods that are waited for.
abbrev pub evicted : DrainPod → Option Str → List DrainPod → List DrainPod
evicted pod none rest = pod ∷ rest
evicted pod (some e) rest = rest

unfoldable pub evict_all : (DrainPod → Option Str) → List DrainPod → List DrainPod × List DrainPod
unfolding same lookup
evict_all evict [] = ([], [])
evict_all evict (pod ∷ pods) =
    let rest = evict_all evict pods in
    if stays pod then rest else (pod ∷ rest.0, evicted pod (evict pod) rest.1)

-- A turn of the poll keeps the pods that are not gone.
unfoldable pub remaining : (DrainPod → Bool) → List DrainPod → List DrainPod
remaining gone [] = []
remaining gone (pod ∷ pods) =
    let rest = remaining gone pods in if gone pod then rest else pod ∷ rest

-- The poll ends with no pod left, or with the context.
unfoldable pub poll : Turns → List DrainPod → List DrainPod
unfolding remaining
poll [] pending = pending
poll (gone ∷ turns) pending = elim (remaining gone pending) [
  | [] ↦ []
  | pod ∷ pods ↦ poll turns (pod ∷ pods)
]

module _ (a : DrainAnswers) (turns : Turns) where
  abbrev pub failed_drain : Str → List DrainCall → Drained
  failed_drain e calls = record { result = some e; calls = calls; left = []; drain_done = true }

  abbrev pub drain_pods : Str → Result Str (List DrainPod) → Drained
  drain_pods node (fail e) =
      failed_drain (str "list pods on node: " ++ e) (cordons node ∷ lists node ∷ [])
  drain_pods node (ok pods) =
      let out = evict_all a.evict pods in
      record {
        result = none;
        calls = cordons node ∷ lists node ∷ map evicts out.0 ++ (marks_not_ready node ∷ []);
        left = poll turns out.1;
        drain_done = true;
      }

  abbrev pub drain_cordoned : Str → Option Str → Drained
  drain_cordoned node (some e) = failed_drain (str "cordon node: " ++ e) (cordons node ∷ [])
  drain_cordoned node none = drain_pods node (a.list_pods node)

  -- drainNode, with the name of the node's reference.
  unfoldable pub drain_node : Option Str → Drained
  unfolding evict_all poll
  drain_node none = failed_drain (str "node reference not found") []
  drain_node (some node) = drain_cordoned node (a.cordon node)

-- A pod that is gone in one of the turns.
abbrev pub gone_in : Turns → DrainPod → Bool
gone_in [] pod = false
gone_in (gone ∷ turns) pod = gone pod || gone_in turns pod

abbrev pub failed_eviction : Option Str → Bool
failed_eviction none = false
failed_eviction (some e) = true

remaining-all : (pods : List DrainPod) → remaining (λ p. false) pods ≡ pods
unfolding remaining
remaining-all [] = refl
remaining-all (pod ∷ pods) = ap (λ l. pod ∷ l) (remaining-all pods)

remaining-remaining :
    (f g : DrainPod → Bool) (pods : List DrainPod)
    → remaining g (remaining f pods) ≡ remaining (λ p. f p || g p) pods
unfolding remaining
remaining-remaining f g [] = refl
remaining-remaining f g (pod ∷ pods) = by_test (f pod) (remaining-remaining f g pods)
  where
    by_test :
        (b : Bool)
        → remaining g (remaining f pods) ≡ remaining (λ p. f p || g p) pods
        → remaining g (if b then remaining f pods else pod ∷ remaining f pods) ≡ (
            if b || g pod
            then remaining (λ p. f p || g p) pods
            else pod ∷ remaining (λ p. f p || g p) pods)
    by_test true h = h
    by_test false h = ap (λ l. if g pod then l else pod ∷ l) h

-- However the turns come, the poll ends with the pods that were gone in none of them.
poll-remaining :
    (turns : Turns) (pending : List DrainPod)
    → poll turns pending ≡ remaining (gone_in turns) pending
unfolding poll
poll-remaining [] pending = sym (remaining-all pending)
poll-remaining (gone ∷ turns) pending =
    by_left (poll-remaining turns) (remaining gone pending)
    ∙ remaining-remaining gone (gone_in turns) pending
  where
    by_left :
        ((ps : List DrainPod) → poll turns ps ≡ remaining (gone_in turns) ps)
        → (l : List DrainPod)
        → (elim l [ [] ↦ [] | pod ∷ pods ↦ poll turns (pod ∷ pods) ]) ≡ remaining (gone_in turns) l
    by_left ih [] = refl
    by_left ih (pod ∷ pods) = ih (pod ∷ pods)

evict_all-remaining :
    (evict : DrainPod → Option Str) (pods : List DrainPod)
    → evict_all evict pods
      ≡ (remaining stays pods, remaining (λ p. stays p || failed_eviction (evict p)) pods)
unfolding evict_all remaining
evict_all-remaining evict [] = refl
evict_all-remaining evict (pod ∷ pods) =
    rw (evict_all-remaining evict pods) (by_tests (stays pod) (evict pod))
  where
    kept_pods : List DrainPod
    kept_pods = remaining (λ p. stays p || failed_eviction (evict p)) pods

    by_tests :
        (b : Bool) (answer : Option Str)
        → ◌≡◌ {A = List DrainPod × List DrainPod}
            (if b
              then (remaining stays pods, kept_pods)
              else (pod ∷ remaining stays pods, evicted pod answer kept_pods))
            (
              if b then remaining stays pods else pod ∷ remaining stays pods,
              if b || failed_eviction answer then kept_pods else pod ∷ kept_pods,
            )
    by_tests true answer = refl
    by_tests false none = refl
    by_tests false (some e) = refl

module _ (a : DrainAnswers) (turns : Turns) where
  -- A node that is cordoned and whose pods are listed is drained: exactly the pods that are neither
  -- mirrors nor of a daemon set are evicted, each once, in their order, behind the cordon, and the
  -- node is marked as not ready behind them, whatever came of the evictions and the wait. What the
  -- poll ends with is the pods whose eviction was taken and that were gone in none of its turns.
  -- There is no error, and the gate that the components end by is closed.
  pub drain_node-remaining :
      (node : Str) (pods : List DrainPod)
      → a.cordon node ≡ none
      → a.list_pods node ≡ ok pods
      → drain_node a turns (some node) ≡ record {
        result = none;
        calls =
            cordons node ∷ lists node ∷ map evicts (remaining stays pods)
            ++ (marks_not_ready node ∷ []);
        left = remaining (λ p. (stays p || failed_eviction (a.evict p)) || gone_in turns p) pods;
        drain_done = true;
      }
  unfolding drain_node
  drain_node-remaining node pods cordoned listed =
      ap (λ o. drain_cordoned a turns node o) cordoned
      ∙ ap (λ r. drain_pods a turns node r) listed
      ∙ rw (evict_all-remaining a.evict pods) (
          ap with_left (
            poll-remaining turns (remaining (λ p. stays p || failed_eviction (a.evict p)) pods)
            ∙ remaining-remaining (λ p. stays p || failed_eviction (a.evict p)) (gone_in turns)
                pods))
    where
      with_left : List DrainPod → Drained
      with_left l = record {
        result = none;
        calls =
            cordons node ∷ lists node ∷ map evicts (remaining stays pods)
            ++ (marks_not_ready node ∷ []);
        left = l;
        drain_done = true;
      }
