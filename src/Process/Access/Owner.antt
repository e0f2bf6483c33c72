-- ===== src/Process/Access/Owner.antt =====
-- Whose token the process mints.
use nanokube.Prelude.{
  ℕ, ◌≡◌, refl, ap, ◌∙◌, Bool, true, false, ◌&&◌, ◌||◌, Option, none, some, List, [], ◌∷◌, ◌++◌,
  ◌==◌, if◌then◌else◌, ==_iff, length, drop, Str, str, same, has_prefix, Result, ok, fail,
}
use nanokube.Process.Access.{
  service_account_prefix, cut_at_byte, account_of, service_account, Apply, service_account_applied,
  token_created, Replies, Access, expiration, token_minted, binding_of, after_binding,
  after_account, token_for, update_token,
}

-- A text that is cut is what stands before the byte, the byte, and what stands behind it.
abbrev Parts : ℕ → Str → Option (Str × Str) → Type 0
Parts sep s none = Unit
Parts sep s (some (before, after)) = s ≡ before ++ (sep ∷ after)

cut_at_byte-Parts : (sep : ℕ) (s : Str) → Parts sep s (cut_at_byte sep s)
unfolding cut_at_byte
cut_at_byte-Parts sep [] = tt
cut_at_byte-Parts sep (c ∷ s) =
    by_test (c == sep) refl (cut_at_byte sep s) (cut_at_byte-Parts sep s)
  where
    by_test :
        (hit : Bool)
        → (c == sep) ≡ hit
        → (rest : Option (Str × Str)) → Parts sep s rest
        → Parts sep (c ∷ s) (
            if hit then some ([], s) else elim rest [ none ↦ none | some (x, y) ↦ some (c ∷ x, y) ])
    by_test true e rest q = ap (λ x. x ∷ s) ((==_iff c sep).0 e)
    by_test false e none q = tt
    by_test false e (some (x, y)) q = ap (λ l. c ∷ l) q

has_prefix-drop : (s p : Str) → has_prefix s p ≡ true → s ≡ p ++ drop (length p) s
unfolding has_prefix
has_prefix-drop s [] h = refl
has_prefix-drop [] (y ∷ p) h = cc
has_prefix-drop (x ∷ s) (y ∷ p) h = by_test (x == y) refl h (has_prefix-drop s p)
  where
    by_test :
        (hit : Bool)
        → (x == y) ≡ hit
        → (hit && has_prefix s p) ≡ true
        → (has_prefix s p ≡ true → s ≡ p ++ drop (length p) s)
        → x ∷ s ≡ y ∷ (p ++ drop (length p) s)
    by_test true e q ih = λ i. (==_iff x y).0 e i ∷ ih q i
    by_test false e q ih = cc

-- The account of a subject, if it has one.
abbrev Names : Str → Result Str (Str × Str) → Type 0
Names subject (fail e) = Unit
Names subject (ok (namespace, name)) =
    subject ≡ service_account_prefix ++ (namespace ++ (b':' ∷ name))

account_of-Names :
    (subject rest : Str) (parts : Option (Str × Str))
    → subject ≡ service_account_prefix ++ rest
    → Parts b':' rest parts
    → Names subject (account_of subject parts)
account_of-Names subject rest none e p = tt
account_of-Names subject rest (some (namespace, name)) e p =
    by_empty (same namespace [] || same name [])
  where
    by_empty :
        (empty : Bool)
        → Names subject (
            if empty
            then fail (str "updateToken: malformed service account subject " ++ subject)
            else ok (namespace, name))
    by_empty true = tt
    by_empty false = e ∙ ap (λ l. service_account_prefix ++ l) p

service_account-Names : (subject : Str) → Names subject (service_account subject)
unfolding service_account
service_account-Names subject = by_prefix (has_prefix subject service_account_prefix) refl
  where
    rest : Str
    rest = drop (length service_account_prefix) subject

    by_prefix :
        (b : Bool)
        → has_prefix subject service_account_prefix ≡ b
        → Names subject (
            if b
            then account_of subject (cut_at_byte b':' rest)
            else fail (str "updateToken: subject " ++ subject ++ str " is not a service account"))
    by_prefix true e =
        account_of-Names subject rest (cut_at_byte b':' rest)
          (has_prefix-drop subject service_account_prefix e) (cut_at_byte-Parts b':' rest)
    by_prefix false e = tt

module _ (r : Replies) where
  -- How an access with a token came to be.
  pub record Minted (subject : Str) (a : Access) (token : Str) : Type 0 where
    pub namespace : Str
    pub name : Str
    pub named : subject ≡ service_account_prefix ++ (namespace ++ (b':' ∷ name))
    pub account_there : r.refuses (service_account_applied namespace name) ≡ none
    pub granted : r.refuses (binding_of r namespace name) ≡ none
    pub created : r.token namespace name ≡ ok token
    pub asked :
        a.requests
        ≡ service_account_applied namespace name
          ∷ binding_of r namespace name
          ∷ token_created namespace name expiration
          ∷ []
    pub succeeds : a.result ≡ none

  token_for-Minted :
      (subject : Str) (account : Result Str (Str × Str)) (token : Str)
      → Names subject account
      → (token_for r subject account).token ≡ some token
      → Minted subject (token_for r subject account) token
  token_for-Minted subject (fail e) token n h = cc
  token_for-Minted subject (ok (namespace, name)) token n h =
      by_account (r.refuses (service_account_applied namespace name)) refl h
    where
      before : List Apply
      before = service_account_applied namespace name ∷ binding_of r namespace name ∷ []

      by_token :
          r.refuses (service_account_applied namespace name) ≡ none
          → r.refuses (binding_of r namespace name) ≡ none
          → (t : Result Str Str) → r.token namespace name ≡ t
          → (token_minted r subject namespace name before t).token ≡ some token
          → Minted subject (token_minted r subject namespace name before t) token
      by_token s b (ok t) e h = record {
        namespace = namespace;
        name = name;
        named = n;
        account_there = s;
        granted = b;
        created = cc;
        asked = refl;
        succeeds = refl;
      }
      by_token s b (fail l) e h = cc

      by_binding :
          r.refuses (service_account_applied namespace name) ≡ none
          → (o : Option Str) → r.refuses (binding_of r namespace name) ≡ o
          → (after_binding r subject namespace name o).token ≡ some token
          → Minted subject (after_binding r subject namespace name o) token
      by_binding s none e h = by_token s e (r.token namespace name) refl h
      by_binding s (some l) e h = cc

      by_account :
          (o : Option Str)
          → r.refuses (service_account_applied namespace name) ≡ o
          → (after_account r subject namespace name o).token ≡ some token
          → Minted subject (after_account r subject namespace name o) token
      by_account none e h = by_binding e (r.refuses (binding_of r namespace name)) refl h
      by_account (some l) e h = cc

  -- The process has a token only if its subject names a service account; then the account was
  -- applied first, and the role cluster-admin bound to this account, neither of which the API
  -- server refused; the token is the one that it made for the same account, for a year; no other
  -- request was made; and there is no error.
  pub update_token-Minted :
      (subject token : Str)
      → (update_token r subject).token ≡ some token
      → Minted subject (update_token r subject) token
  unfolding update_token
  update_token-Minted subject token h =
      token_for-Minted subject (service_account subject) token (service_account-Names subject) h
