-- ===== src/Storage/Once/Changes.antt =====
-- The changes that the operations of the storage are made of, each on one field or two.
use nanokube.Prelude.{ℕ, ◌≡◌, refl, ap, ◌∙◌, Option, none, some, [], ◌∷◌, Str, Result, ok, fail}
use nanokube.Storage.Client.{ClientImpl}
use nanokube.Storage.State.{Discovered, TransportConfig, StorageImpl}
use nanokube.Storage.Backends.{cancel_storage, with_discovery, with_transport, port_once}
use nanokube.Storage.Dispatch.{sqlite_once, kept_client, refused_client}
use nanokube.Storage.Peers.{with_server_config, server_config_once}
use nanokube.Storage.Once.{
  same_kept, Keeps-first, Keeps-or_else, Keeps-new, servers_in, Continues, Continues-refl,
  Continues-trans, changed, Beside, Ported,
}

module _ {S Url Etcd Bridge G : Type 0} (s : StorageImpl S Url Etcd Bridge G) where
  pub Beside-refl : Beside s s
  Beside-refl = record { continues = Continues-refl s; same_client = refl }

  pub Ported-refl : Ported s s
  Ported-refl = record { beside = Beside-refl; same_embedded = refl }

  pub with_discovery-Continues : (d : Discovered Url) → Continues s (with_discovery d s)
  unfolding with_discovery
  with_discovery-Continues d =
      changed s _ (same_kept _) (same_kept _) (Keeps-first s.discovery d) (same_kept _)
        (same_kept _) (same_kept _) (same_kept _) (same_kept _) (λ h. h)

  pub with_transport-Continues : (cfg : TransportConfig) → Continues s (with_transport cfg s)
  unfolding with_transport
  with_transport-Continues cfg =
      changed s _ (same_kept _) (same_kept _) (same_kept _) (Keeps-first s.transport cfg)
        (same_kept _) (same_kept _) (same_kept _) (same_kept _) (λ h. h)

  pub cancel_storage-Continues : (e : Str) → Continues s (cancel_storage e s)
  unfolding cancel_storage
  cancel_storage-Continues e =
      changed s _ (Keeps-or_else s.cause e) (same_kept _) (same_kept _) (same_kept _) (same_kept _)
        (same_kept _) (same_kept _) (same_kept _) (λ h. h)

  pub with_server_config-Continues : (own : G) → Continues s (with_server_config own s).0
  unfolding with_server_config
  with_server_config-Continues own = by_rest s.rest refl
    where
      by_rest : (r : Option G) → s.rest ≡ r → Continues s (server_config_once r own s).0
      by_rest none e =
          changed s _ (same_kept _) (same_kept _) (same_kept _) (same_kept _) (Keeps-new _ _ e)
            (same_kept _) (same_kept _) (same_kept _) (λ h. h)
      by_rest (some r) e = Continues-refl s

  pub port_once-Ported :
      (l : Result Str ℕ) (p : Option ℕ) → s.port ≡ p → Ported s (port_once l s p).0
  unfolding cancel_storage
  port_once-Ported (ok l) none e = record {
    beside = record {
      continues =
          changed s _ (same_kept _) (same_kept _) (same_kept _) (same_kept _) (same_kept _)
            (Keeps-new _ _ e) (same_kept _) (same_kept _) (λ h. h);
      same_client = refl;
    };
    same_embedded = refl;
  }
  port_once-Ported (fail l) none e = record {
    beside = record {
      continues =
          changed s _ (Keeps-or_else s.cause l) (same_kept _) (same_kept _) (same_kept _)
            (same_kept _) (Keeps-new _ _ e) (same_kept _) (same_kept _) (λ h. h);
      same_client = refl;
    };
    same_embedded = refl;
  }
  port_once-Ported (ok l) (some p) e = Ported-refl
  port_once-Ported (fail l) (some p) e = Ported-refl

  pub sqlite_once-Beside :
      (made : Result Str Bridge) (b : Option (Option Bridge))
      → s.sqlite_bridge ≡ b
      → Beside s (sqlite_once made b s).0
  unfolding cancel_storage
  sqlite_once-Beside (ok bridge) none e = record {
    continues =
        changed s _ (same_kept _) (same_kept _) (same_kept _) (same_kept _) (same_kept _)
          (same_kept _) (Keeps-new _ _ e) (same_kept _) (λ h. h);
    same_client = refl;
  }
  sqlite_once-Beside (fail l) none e = record {
    continues =
        changed s _ (Keeps-or_else s.cause l) (same_kept _) (same_kept _) (same_kept _)
          (same_kept _) (same_kept _) (Keeps-new _ _ e) (same_kept _) (λ h. h);
    same_client = refl;
  }
  sqlite_once-Beside (ok bridge) (some b) e = Beside-refl
  sqlite_once-Beside (fail l) (some b) e = Beside-refl

  pub kept_client-Continues : (c : ClientImpl S) → s.client ≡ none → Continues s (kept_client s c).0
  kept_client-Continues c e =
      changed s _ (same_kept _) (Keeps-new _ _ e) (same_kept _) (same_kept _) (same_kept _)
        (same_kept _) (same_kept _) (same_kept _) (λ h. h)

  pub refused_client-Continues : (l : Str) → s.client ≡ none → Continues s (refused_client l s).0
  unfolding cancel_storage
  refused_client-Continues l e =
      changed s _ (Keeps-or_else s.cause l) (Keeps-new _ _ e) (same_kept _) (same_kept _)
        (same_kept _) (same_kept _) (same_kept _) (same_kept _) (λ h. h)

  pub started-Beside :
      (t : StorageImpl S Url Etcd Bridge G) (srv : Etcd)
      → Ported s t
      → s.embedded ≡ none
      → Beside s (record t { embedded = some (some srv); started = srv ∷ t.started })
  started-Beside t srv p e = record {
    continues = Continues-trans s t _ p.beside.continues (
        changed t _ (same_kept _) (same_kept _) (same_kept _) (same_kept _) (same_kept _)
          (same_kept _) (same_kept _) (Keeps-new _ _ (p.same_embedded ∙ e)) alone);
    same_client = p.beside.same_client;
  }
    where
      alone : t.started ≡ servers_in t.embedded → srv ∷ t.started ≡ srv ∷ []
      alone h = ap (λ l. srv ∷ l) (h ∙ ap servers_in (p.same_embedded ∙ e))

  pub failed-Beside :
      (t : StorageImpl S Url Etcd Bridge G) (l : Str)
      → Ported s t
      → s.embedded ≡ none
      → Beside s (cancel_storage l (record t { embedded = some none }))
  unfolding cancel_storage
  failed-Beside t l p e = record {
    continues = Continues-trans s t _ p.beside.continues (
        changed t _ (Keeps-or_else t.cause l) (same_kept _) (same_kept _) (same_kept _)
          (same_kept _) (same_kept _) (same_kept _) (Keeps-new _ _ (p.same_embedded ∙ e)) alone);
    same_client = p.beside.same_client;
  }
    where
      alone : t.started ≡ servers_in t.embedded → t.started ≡ []
      alone h = h ∙ ap servers_in (p.same_embedded ∙ e)
