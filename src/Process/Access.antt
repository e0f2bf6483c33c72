-- ===== src/Process/Access.antt =====
-- updateToken and updateRBAC of pkg/command.go: the access that the process gives itself, and the
-- paths that it adds to the API server. The requests are recorded; what the API server answers to
-- each is a parameter. The kubeconfig that discovery is given with the token is left out.
pub mod Owner
use nanokube.Prelude.{
  ℕ, zero, suc, ◌+◌, ◌-◌, ◌*◌, ◌/◌, ◌%◌, ◌^◌, ◌≤◌, ◌<◌, ◌≡◌, refl, sym, ap, ◌∙◌, subst, ◌≢◌, ◌↔◌,
  ◌⊎◌, inl, inr, Bool, true, false, ◌&&◌, ◌||◌, not, Option, none, some, List, [], ◌∷◌, ◌++◌, map,
  arith, ltb, leb, ◌==◌, if◌then◌else◌, ltb→lt, lt→ltb, leb→le, ==_iff, Bool-cases, Option-cases,
  length, take, drop, length-append, length-drop, length-take, take-append, drop-append,
  take-append-drop, All, All-append, All-split, Str, str, same, same_iff, same_refl, same_ne,
  member, append_left_cancel, has_prefix, has_prefix-append, Dict, lookup, insert, copy_into, IsMap,
  insert-IsMap, or_else, lookup-copy_into, lookup-insert, lookup-insert_self, lookup-insert_ne,
  value_of, Returns, Returns-some, Result, ok, fail, Result-cases,
}

abbrev pub service_account_prefix : Str
service_account_prefix = str "system:serviceaccount:"

-- `strings.Cut` at a byte, if it is there.
unfoldable pub cut_at_byte : ℕ → Str → Option (Str × Str)
cut_at_byte sep [] = none
cut_at_byte sep (c ∷ s) =
    let rest = cut_at_byte sep s in
    if c == sep
    then some ([], s)
    else elim rest [ none ↦ none | some (before, after) ↦ some (c ∷ before, after) ]

-- The service account of a subject, or the error.
abbrev pub account_of : Str → Option (Str × Str) → Result Str (Str × Str)
account_of subject none = fail (str "updateToken: malformed service account subject " ++ subject)
account_of subject (some (namespace, name)) =
    if same namespace [] || same name []
    then fail (str "updateToken: malformed service account subject " ++ subject)
    else ok (namespace, name)

-- The error's quotes are left out.
unfoldable pub service_account : Str → Result Str (Str × Str)
unfolding has_prefix same cut_at_byte
service_account subject =
    if has_prefix subject service_account_prefix
    then account_of subject (cut_at_byte b':' (drop (length service_account_prefix) subject))
    else fail (str "updateToken: subject " ++ subject ++ str " is not a service account")

pub data Subject : Type 0 where
  account_subject : Str → Str → Subject
  user_subject : Str → Subject

pub data Apply : Type 0 where
  service_account_applied : Str → Str → Apply
  role_applied : Str → List Str → Apply
  aggregate_applied : Str → Apply
  -- a binding, its role and its subject
  binding_applied : Str → Str → Subject → Apply
  token_created : Str → Str → ℕ → Apply

-- What the API server answers: an error, or the token.
pub record Replies : Type 0 where
  pub refuses : Apply → Option Str
  pub token : Str → Str → Result Str Str

pub record Access : Type 0 where
  pub result : Option Str
  pub requests : List Apply
  pub token : Option Str

-- A year, in seconds.
abbrev pub expiration : ℕ
expiration = 31536000

abbrev pub colon : Str
colon = str ":"

abbrev pub account_binding : Str → Str → Str
account_binding namespace name = str "nanokube:" ++ (namespace ++ (colon ++ name))

module _ (r : Replies) where
  abbrev pub token_minted : Str → Str → Str → List Apply → Result Str Str → Access
  token_minted subject namespace name before (ok token) = record {
    result = none;
    requests = before ++ (token_created namespace name expiration ∷ []);
    token = some token;
  }
  token_minted subject namespace name before (fail e) = record {
    result = some (str "create token for " ++ subject ++ str ": " ++ e);
    requests = before ++ (token_created namespace name expiration ∷ []);
    token = none;
  }

  abbrev pub binding_of : Str → Str → Apply
  binding_of namespace name =
      binding_applied (account_binding namespace name) (str "cluster-admin")
        (account_subject namespace name)

  abbrev pub after_binding : Str → Str → Str → Option Str → Access
  after_binding subject namespace name none =
      token_minted subject namespace name
        (service_account_applied namespace name ∷ binding_of namespace name ∷ [])
        (r.token namespace name)
  after_binding subject namespace name (some e) = record {
    result =
        some (str "apply cluster role binding " ++ account_binding namespace name ++ str ": " ++ e);
    requests = service_account_applied namespace name ∷ binding_of namespace name ∷ [];
    token = none;
  }

  abbrev pub after_account : Str → Str → Str → Option Str → Access
  after_account subject namespace name none =
      after_binding subject namespace name (r.refuses (binding_of namespace name))
  after_account subject namespace name (some e) = record {
    result = some (str "apply service account " ++ namespace ++ str "/" ++ name ++ str ": " ++ e);
    requests = service_account_applied namespace name ∷ [];
    token = none;
  }

  abbrev pub token_for : Str → Result Str (Str × Str) → Access
  token_for subject (fail e) = record { result = some e; requests = []; token = none }
  token_for subject (ok (namespace, name)) =
      after_account subject namespace name (r.refuses (service_account_applied namespace name))

  -- updateToken.
  unfoldable pub update_token : Str → Access
  unfolding service_account
  update_token subject = token_for subject (service_account subject)
