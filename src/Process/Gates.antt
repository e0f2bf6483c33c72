-- ===== src/Process/Gates.antt =====
-- What pkg/nanokube.go waits for and gives once: the informers, the loopback config with the
-- kubeconfig and the client that are made of it, the node's reference, and the backends. Objects of
-- the libraries are parameters.
use nanokube.Prelude.{
  ◌≡◌, refl, sym, ap, ◌∙◌, Bool, true, false, ◌&&◌, Option, none, some, List, [], ◌∷◌,
  if◌then◌else◌, Str, str, same, Dict, lookup, insert, or_else, Result,
}
use nanokube.Storage.Flow.{Flow, gives, ◌>>=◌, deref, await}
use nanokube.Process.Cancel.{Ended, comes, exits}

-- `F` is an informer factory, `C` a client, `B` a backend.
pub record LoopbackConfig : Type 0 where
  pub host : Str
  pub ca_data : Str
  pub insecure : Bool
  pub server_name : Str
  pub cert_data : Str
  pub key_data : Str
  pub bearer_token : Str

pub record ObjectReference : Type 0 where
  pub namespace : Str
  pub name : Str

pub record Gates (F C B : Type 0) : Type 0 where
  -- whether the context is done
  pub ended : Bool
  pub factory : Option F
  pub loopback : Option LoopbackConfig
  pub client : Option C
  pub node_ref : Option ObjectReference
  pub backends : Dict B
  pub backends_detected : Bool

abbrev pub keep_first {ℓ} : {A : Type ℓ} → Option A → A → Option A
keep_first none a = some a
keep_first (some old) a = some old

abbrev pub opened {ℓ} : {A : Type ℓ} → Option A → Bool
opened none = false
opened (some a) = true

-- An object of an event, and whether it is a reference.
pub record EventObject : Type 0 where
  pub group : Str
  pub version : Str
  pub kind : Str
  pub reference : Option ObjectReference

pub record NodeEvent : Type 0 where
  pub object : EventObject
  pub event_type : Str
  pub reason : Str

abbrev pub tells_ready : NodeEvent → Bool
tells_ready e =
    same e.object.group []
    && same e.object.version (str "v1")
    && same e.object.kind (str "Node")
    && same e.event_type (str "Normal")
    && same e.reason (str "NodeReady")

-- A config of clientcmd, with one cluster, user and context, whose name is the host.
pub record Kubeconfig : Type 0 where
  pub current_context : Str
  pub server : Str
  pub certificate_authority_data : Str
  pub insecure_skip_tls_verify : Bool
  pub tls_server_name : Str
  pub client_certificate_data : Str
  pub client_key_data : Str
  pub token : Str

abbrev pub kubeconfig_of : LoopbackConfig → Kubeconfig
kubeconfig_of l = record {
  current_context = l.host;
  server = l.host;
  certificate_authority_data = l.ca_data;
  insecure_skip_tls_verify = l.insecure;
  tls_server_name = l.server_name;
  client_certificate_data = l.cert_data;
  client_key_data = l.key_data;
  token = l.bearer_token;
}

module _ {F C B : Type 0} where
  -- SetSharedInformerFactory, with the factory that it gives.
  unfoldable pub set_shared_informer_factory : F → Gates F C B → Gates F C B × Option F
  set_shared_informer_factory f k =
      (record k { factory = keep_first k.factory f }, keep_first k.factory f)

  -- SharedInformerFactory, nil if the context is done first.
  unfoldable pub shared_informer_factory : Gates F C B → Flow (Option F)
  shared_informer_factory k = await (opened k.factory) k.ended (gives k.factory)

  unfoldable pub with_loopback : LoopbackConfig → Gates F C B → Gates F C B
  with_loopback l k = record k { loopback = keep_first k.loopback l }

  -- KubeconfigPath, by what it writes: the path, or the error that it cancels the process with.
  unfoldable pub kubeconfig_path :
      (Kubeconfig → Result Str Str) → Gates F C B → Flow (Result Str Str)
  kubeconfig_path write k =
      await (opened k.loopback) k.ended (deref k.loopback) >>= λ l. gives (write (kubeconfig_of l))

  abbrev pub client_made :
      (Option LoopbackConfig → C) → Option C → Gates F C B → Flow (Gates F C B × C)
  client_made new_client (some c) k = gives (k, c)
  client_made new_client none k =
      await (opened k.loopback) k.ended
        (gives (record k { client = some (new_client k.loopback) }, new_client k.loopback))

  -- Client of the process.
  unfoldable pub client_of_nano : (Option LoopbackConfig → C) → Gates F C B → Flow (Gates F C B × C)
  client_of_nano new_client k = client_made new_client k.client k

  abbrev pub noted : Bool → Option ObjectReference → Gates F C B → Gates F C B
  noted true (some ref) k = record k { node_ref = keep_first k.node_ref ref }
  noted true none k = k
  noted false _ k = k

  -- Eventf, without the log and the recorder.
  unfoldable pub eventf : NodeEvent → Gates F C B → Gates F C B
  unfolding same
  eventf e k = noted (tells_ready e) e.object.reference k

  unfoldable pub eventf_all : List NodeEvent → Gates F C B → Gates F C B
  unfolding eventf
  eventf_all [] k = k
  eventf_all (e ∷ es) k = eventf_all es (eventf e k)

  -- NodeRef, nil if the context is done first.
  unfoldable pub node_ref_of : Gates F C B → Flow (Option ObjectReference)
  node_ref_of k = await (opened k.node_ref) k.ended (gives k.node_ref)

  unfoldable pub with_backend : Str → B → Gates F C B → Gates F C B
  unfolding insert
  with_backend name b k = record k { backends = insert name b k.backends }

  -- The backends that are detected, each with its name.
  unfoldable pub detect_all : List (Option (Str × B)) → Gates F C B → Gates F C B
  unfolding with_backend
  detect_all [] k = k
  detect_all (none ∷ ds) k = detect_all ds k
  detect_all (some (name, b) ∷ ds) k = detect_all ds (with_backend name b k)

  abbrev pub detect_once : Bool → List (Option (Str × B)) → Gates F C B → Gates F C B
  detect_once true ds k = k
  detect_once false ds k = detect_all ds (record k { backends_detected = true })

  -- Backends: the process, whose table it copies.
  unfoldable pub detect_backends : List (Option (Str × B)) → Gates F C B → Gates F C B
  unfolding detect_all
  detect_backends ds k = detect_once k.backends_detected ds k

  unfoldable pub backend_named : Str → Gates F C B → Option B
  unfolding lookup
  backend_named name k = lookup name k.backends

-- DefaultBackend takes the first that the iteration of the table comes to; without one the
-- process is cancelled, which ends the goroutine.
abbrev pub default_backend : {B : Type 0} → List B → Ended B
default_backend [] = exits
default_backend (b ∷ bs) = comes b

-- The reference of the first event that tells of a node that is ready.
abbrev pub first_ready : List NodeEvent → Option ObjectReference
first_ready [] = none
first_ready (e ∷ es) =
    if tells_ready e then or_else e.object.reference (first_ready es) else first_ready es

or_else-none : (o : Option ObjectReference) → or_else o none ≡ o
or_else-none none = refl
or_else-none (some r) = refl

or_else-if :
    (b : Bool) (old r later : Option ObjectReference)
    → or_else (or_else old (if b then r else none)) later
      ≡ or_else old (if b then or_else r later else later)
or_else-if true none r later = refl
or_else-if true (some old) r later = refl
or_else-if false none r later = refl
or_else-if false (some old) r later = refl

module _ {F C B : Type 0} where
  noted-node_ref :
      (b : Bool) (ref : Option ObjectReference) (k : Gates F C B)
      → (noted b ref k).node_ref ≡ or_else k.node_ref (if b then ref else none)
  noted-node_ref b ref k = by_ref b ref k.node_ref refl
    where
      by_ref :
          (b : Bool) (ref old : Option ObjectReference)
          → k.node_ref ≡ old
          → (noted b ref k).node_ref ≡ or_else old (if b then ref else none)
      by_ref true (some r) none e = ap (λ o. keep_first o r) e
      by_ref true (some r) (some old) e = ap (λ o. keep_first o r) e
      by_ref true none none e = e
      by_ref true none (some old) e = e
      by_ref false ref none e = e
      by_ref false ref (some old) e = e

  -- After any events, the node's reference is the one it was, if it had been given; else it is
  -- that of the first event of type Normal and reason NodeReady whose object is a core v1 Node by
  -- reference, if there was one.
  eventf_all-node_ref :
      (es : List NodeEvent) (k : Gates F C B)
      → (eventf_all es k).node_ref ≡ or_else k.node_ref (first_ready es)
  unfolding eventf_all eventf
  eventf_all-node_ref [] k = sym (or_else-none k.node_ref)
  eventf_all-node_ref (e ∷ es) k =
      eventf_all-node_ref es (eventf e k)
      ∙ ap (λ o. or_else o (first_ready es)) (noted-node_ref (tells_ready e) e.object.reference k)
      ∙ or_else-if (tells_ready e) k.node_ref e.object.reference (first_ready es)
