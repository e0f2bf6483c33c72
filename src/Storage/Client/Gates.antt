-- ===== src/Storage/Client/Gates.antt =====
-- What a call of a storage client comes to, by the servers that were provided before it.
use nanokube.Prelude.{
  ◌≡◌, refl, ap, ◌∙◌, Bool, true, false, ◌||◌, Option, none, some, List, [], ◌∷◌, if◌then◌else◌,
  Str, or_else, Result,
}
use nanokube.Storage.Flow.{Flow, gives, waits, panics, ◌>>=◌}
use nanokube.Storage.Client.{
  Gate, kv, watch, lease, maintenance, cluster, auth, Method, service_of, Server, Slot, ClientImpl,
  empty_slot, new_client, fill, with_kv, with_watch, with_lease, with_maintenance, with_cluster,
  with_auth, slot_of, call_method, reach,
}
use nanokube.Storage.Client.Served.{same_gate}

module _ {S : Type 0} where
  -- One of the six operations, by its gate.
  unfoldable pub provide : Gate → Option (Server S) → ClientImpl S → Flow (ClientImpl S)
  unfolding with_kv with_watch with_lease with_maintenance with_cluster with_auth
  provide kv server c = with_kv server c
  provide watch server c = with_watch server c
  provide lease server c = with_lease server c
  provide maintenance server c = with_maintenance server c
  provide cluster server c = with_cluster server c
  provide auth server c = with_auth server c

  unfoldable pub provide_all : List (Gate × Option (Server S)) → ClientImpl S → Flow (ClientImpl S)
  provide_all [] c = gives c
  provide_all ((g, server) ∷ ps) c = provide g server c >>= provide_all ps

  -- What was provided for a gate.
  abbrev pub provided_for : Gate → List (Gate × Option (Server S)) → Option (Option (Server S))
  provided_for g [] = none
  provided_for g ((p, server) ∷ ps) =
      or_else (provided_for g ps) (if same_gate p g then some server else none)

  -- Whether a gate is provided for twice, or again when it is closed.
  abbrev pub again : (Gate → Bool) → List (Gate × Option (Server S)) → Bool
  again closed [] = false
  again closed ((p, server) ∷ ps) = closed p || again (λ g. same_gate p g || closed g) ps

  -- What a call comes to, by what was provided for its gate and by its context.
  abbrev pub expected :
      Option (Option (Server S)) → Bool → Method → Str → S → Flow (S × Result Str Str)
  expected none false m text st = waits
  expected none true m text st = panics
  expected (some none) ended m text st = panics
  expected (some (some server)) ended m text st = gives (server m text st)

  set_slot : Gate → Slot S → ClientImpl S → ClientImpl S
  set_slot kv slot c = record c { kvs = slot }
  set_slot watch slot c = record c { watches = slot }
  set_slot lease slot c = record c { leases = slot }
  set_slot maintenance slot c = record c { maintains = slot }
  set_slot cluster slot c = record c { clusters = slot }
  set_slot auth slot c = record c { auths = slot }

  slot_of-set_slot :
      (p g : Gate) (slot : Slot S) (c : ClientImpl S)
      → slot_of g (set_slot p slot c) ≡ (if same_gate p g then slot else slot_of g c)
  unfolding set_slot
  slot_of-set_slot kv kv slot c = refl
  slot_of-set_slot watch watch slot c = refl
  slot_of-set_slot lease lease slot c = refl
  slot_of-set_slot maintenance maintenance slot c = refl
  slot_of-set_slot cluster cluster slot c = refl
  slot_of-set_slot auth auth slot c = refl
  slot_of-set_slot _ _ slot c = refl

  provide-set_slot :
      (p : Gate) (server : Option (Server S)) (c : ClientImpl S)
      → provide p server c ≡ (fill server (slot_of p c) >>= λ slot. gives (set_slot p slot c))
  unfolding provide set_slot fill
  provide-set_slot kv server c = refl
  provide-set_slot watch server c = refl
  provide-set_slot lease server c = refl
  provide-set_slot maintenance server c = refl
  provide-set_slot cluster server c = refl
  provide-set_slot auth server c = refl

  -- A slot as the provisions to come leave it.
  abbrev later_slot : Slot S → Option (Option (Server S)) → Slot S
  later_slot slot none = slot
  later_slot slot (some server) = record { server = server; provided = true }

  call_slot : Slot S → Bool → Method → Str → S → Flow (S × Result Str Str)
  call_slot slot ended m text st = reach slot ended >>= λ server. gives (server m text st)

  later_slot-if :
      (hit : Bool) (server : Option (Server S)) (slot : Slot S) (later : Option (Option (Server S)))
      → later_slot (if hit then record { server = server; provided = true } else slot) later
        ≡ later_slot slot (or_else later (if hit then some server else none))
  later_slot-if true server slot none = refl
  later_slot-if true server slot (some other) = refl
  later_slot-if false server slot none = refl
  later_slot-if false server slot (some other) = refl

  provided-if :
      (hit : Bool) (server : Option (Server S)) (slot : Slot S)
      → (if hit then record { server = server; provided = true } else slot).provided
        ≡ (hit || slot.provided)
  provided-if true server slot = refl
  provided-if false server slot = refl

  module _ (m : Method) (text : Str) (ended : Bool) (st : S) where
    abbrev outcome : Bool → Slot S → Flow (S × Result Str Str)
    outcome twice slot = if twice then panics else call_slot slot ended m text st

    after_fill :
        (was : Bool) (p : Gate) (slot : Slot S) (ps : List (Gate × Option (Server S)))
        (c : ClientImpl S) (later : Bool) (last : Slot S)
        → (provide_all ps (set_slot p slot c) >>= λ d. call_method d m text ended st)
          ≡ outcome later last
        → (((if was then panics else gives slot) >>= λ s. gives (set_slot p s c))
            >>= provide_all ps
            >>= λ d. call_method d m text ended st)
          ≡ outcome (was || later) last
    after_fill true p slot ps c later last h = refl
    after_fill false p slot ps c later last h = h

    provide_all-outcome :
        (ps : List (Gate × Option (Server S))) (c : ClientImpl S)
        → (provide_all ps c >>= λ d. call_method d m text ended st)
          ≡ outcome
              (again (λ g. (slot_of g c).provided) ps)
              (later_slot (slot_of (service_of m) c) (provided_for (service_of m) ps))
    unfolding provide_all call_method call_slot fill
    provide_all-outcome [] c = refl
    provide_all-outcome ((p, server) ∷ ps) c = rw (provide-set_slot p server c) (
        after_fill (slot_of p c).provided p slot ps c _ _
          (provide_all-outcome ps (set_slot p slot c) ∙ moved))
      where
        slot : Slot S
        slot = record { server = server; provided = true }

        flags :
            (g : Gate)
            → (slot_of g (set_slot p slot c)).provided ≡ (same_gate p g || (slot_of g c).provided)
        flags g =
            ap (λ (s : Slot S). s.provided) (slot_of-set_slot p g slot c)
            ∙ provided-if (same_gate p g) server (slot_of g c)

        reached :
            later_slot (slot_of (service_of m) (set_slot p slot c)) (provided_for (service_of m) ps)
            ≡ later_slot (slot_of (service_of m) c) (provided_for (service_of m) ((p, server) ∷ ps))
        reached =
            ap (λ s. later_slot s (provided_for (service_of m) ps))
              (slot_of-set_slot p (service_of m) slot c)
            ∙ later_slot-if (same_gate p (service_of m)) server (slot_of (service_of m) c)
                (provided_for (service_of m) ps)

        moved :
            outcome (again (λ g. (slot_of g (set_slot p slot c)).provided) ps) (
              later_slot
                (slot_of (service_of m) (set_slot p slot c))
                (provided_for (service_of m) ps))
            ≡ outcome (again (λ g. same_gate p g || (slot_of g c).provided) ps) (
                later_slot
                  (slot_of (service_of m) c)
                  (provided_for (service_of m) ((p, server) ∷ ps)))
        moved = λ i. outcome (again (λ g. flags g i) ps) (reached i)

  expected-slot :
      (ended : Bool) (m : Method) (text : Str) (st : S) (o : Option (Option (Server S)))
      → call_slot (later_slot empty_slot o) ended m text st ≡ expected o ended m text st
  unfolding call_slot
  expected-slot true m text st none = refl
  expected-slot false m text st none = refl
  expected-slot ended m text st (some none) = refl
  expected-slot ended m text st (some (some server)) = refl

  slot_of-new_client : (g : Gate) → slot_of g (new_client {S = S}) ≡ empty_slot
  slot_of-new_client kv = refl
  slot_of-new_client watch = refl
  slot_of-new_client lease = refl
  slot_of-new_client maintenance = refl
  slot_of-new_client cluster = refl
  slot_of-new_client auth = refl

  -- Servers are provided for a new client's gates, in any order, and then a method is called. If
  -- a gate was provided for twice, the program panics. If none was: the call is answered by the
  -- server of its gate, wherever its context is done; it panics if that server is nil, and also
  -- if the gate was not provided for and its context is done; and it waits if the gate was not
  -- provided for and its context is not done.
  pub call_method-provide_all :
      (ps : List (Gate × Option (Server S))) (m : Method) (text : Str) (ended : Bool) (st : S)
      → (provide_all ps new_client >>= λ c. call_method c m text ended st) ≡ (
          if again (λ _. false) ps
          then panics
          else expected (provided_for (service_of m) ps) ended m text st)
  call_method-provide_all ps m text ended st =
      provide_all-outcome m text ended st ps new_client ∙ λ i.
      if again (λ g. (slot_of-new_client g i).provided) ps then panics else at_slot i
    where
      at_slot :
          call_slot
            (later_slot (slot_of (service_of m) new_client) (provided_for (service_of m) ps))
            ended
            m
            text
            st
          ≡ expected (provided_for (service_of m) ps) ended m text st
      at_slot =
          ap (λ s. call_slot (later_slot s (provided_for (service_of m) ps)) ended m text st)
            (slot_of-new_client (service_of m))
          ∙ expected-slot ended m text st (provided_for (service_of m) ps)
