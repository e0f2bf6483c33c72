-- ===== src/Process/Identity/Pair.antt =====
-- The certificate and the key of a process, and the bundle that its clients trust.
use nanokube.Prelude.{
  ◌≡◌, refl, sym, ap, ◌∙◌, subst, ◌≢◌, ◌⊎◌, inl, inr, true, false, Option, none, some, List, ◌++◌,
  Str, Dict, lookup, Result, ok, fail,
}
use nanokube.Process.Cancel.{Nano, Ended, comes, exits, System}
use nanokube.Process.Identity.{
  Paths, key_written, cert_written, generated, pair_or_new, pair_once, ensure_cert_key, encode_all,
  bundle_written, bundle_of, with_cert, behind_pair, bundle_once, root_ca_file_path,
}
use nanokube.Process.Identity.Restart.{Writes}

module _ (sys : System) (p : Paths) (writes : Writes sys) (apart : p.key_path ≢ p.cert_path) where
  -- The pair is in the files, and they are as they were, or it is the one that was generated.
  pub record Pair (k k' : Nano) : Type 0 where
    pub cert : Str
    pub key : Str
    pub has_cert : lookup p.cert_path k'.files ≡ some cert
    pub has_key : lookup p.key_path k'.files ≡ some key
    pub origin : (k'.files ≡ k.files) ⊎ (p.generate ≡ ok (cert, key))
    pub done : k'.cert_key ≡ true

  abbrev Paired : Nano → Nano × Ended (Str × Str) → Type 0
  Paired k (k', comes paths) = Pair k k' × (paths ≡ (p.cert_path, p.key_path))
  Paired k (k', exits) = Unit

  text_written :
      (path text : Str) (files files' : Dict Str)
      → sys.write path text files ≡ (files', none)
      → lookup path files' ≡ some text
  text_written path text files files' e =
      ap (λ (w : Dict Str × Option Str). lookup path w.0) (sym e)
      ∙ writes.kept path text files (ap (λ (w : Dict Str × Option Str). w.1) e)

  generated-Paired :
      (g : Result Str (Str × Str)) (k start : Nano)
      → p.generate ≡ g
      → k.cert_key ≡ true
      → Paired start (generated sys p g k)
  generated-Paired (fail e) k start made once = tt
  generated-Paired (ok (cert, key)) k start made once =
      by_cert (sys.write p.cert_path cert k.files) refl
    where
      by_key :
          (files : Dict Str)
          → lookup p.cert_path files ≡ some cert
          → (w : Dict Str × Option Str) → sys.write p.key_path key files ≡ w
          → Paired start (key_written sys p (record k { files = files }) w)
      by_key files had (files', some l) e = tt
      by_key files had (files', none) e = (
        record {
          cert = cert;
          key = key;
          has_cert =
              ap (λ (w : Dict Str × Option Str). lookup p.cert_path w.0) (sym e)
              ∙ writes.others p.key_path key p.cert_path files apart
              ∙ had;
          has_key = text_written p.key_path key files files' e;
          origin = inr made;
          done = once;
        },
        refl,
      )

      by_cert :
          (w : Dict Str × Option Str)
          → sys.write p.cert_path cert k.files ≡ w
          → Paired start (cert_written sys p key k w)
      by_cert (files, some l) e = tt
      by_cert (files, none) e =
          by_key files (text_written p.cert_path cert k.files files e)
            (sys.write p.key_path key files) refl

  ensure_cert_key-Paired : (k : Nano) → k.cert_key ≡ false → Paired k (ensure_cert_key sys p k)
  unfolding ensure_cert_key
  ensure_cert_key-Paired k fresh =
      subst (λ b. Paired k (pair_once sys p b k)) (sym fresh)
        (by_files (lookup p.cert_path k.files) (lookup p.key_path k.files) refl refl)
    where
      by_files :
          (c o : Option Str)
          → lookup p.cert_path k.files ≡ c
          → lookup p.key_path k.files ≡ o
          → Paired k (pair_or_new sys p c o (record k { cert_key = true }))
      by_files (some cert) (some key) e f = (
        record {
          cert = cert;
          key = key;
          has_cert = e;
          has_key = f;
          origin = inl refl;
          done = refl;
        },
        refl,
      )
      by_files (some cert) none e f = generated-Paired p.generate _ k refl refl
      by_files none o e f = generated-Paired p.generate _ k refl refl

  -- What is text_written to a file is in it, other files stay, and the two paths differ. If a process
  -- that starts comes to its certificate and key, both are in its files, which are as they were
  -- or hold the pair that was generated; and a process that starts later from these files uses
  -- the same pair and writes nothing.
  pub ensure_cert_key-ensure_cert_key :
      (k k' later : Nano) (paths : Str × Str)
      → k.cert_key ≡ false
      → ensure_cert_key sys p k ≡ (k', comes paths)
      → later.cert_key ≡ false
      → later.files ≡ k'.files
      → Pair k k'
        × (ensure_cert_key sys p later
            ≡ (record later { cert_key = true }, comes (p.cert_path, p.key_path)))
  unfolding ensure_cert_key
  ensure_cert_key-ensure_cert_key k k' later paths fresh first_pair new same_files =
      let held : Pair k k' × (paths ≡ (p.cert_path, p.key_path)) =
        subst (Paired k) first_pair (ensure_cert_key-Paired k fresh) in
      let again : Nano = record later { cert_key = true } in
      (
        held.0,
        ap (λ b. pair_once sys p b later) new
            ∙ ap (λ o. pair_or_new sys p o (lookup p.key_path later.files) again)
                (ap (λ f. lookup p.cert_path f) same_files ∙ held.0.has_cert)
            ∙ ap (λ o. pair_or_new sys p (some held.0.cert) o again)
                (ap (λ f. lookup p.key_path f) same_files ∙ held.0.has_key),
      )

module _ (sys : System) (p : Paths) (writes : Writes sys) (ca_apart : p.ca_path ≢ p.cert_path) where
  -- The bundle is the certificate of the API server, and behind it the roots of the tunnel.
  pub record Bundle (cas : List Str) (k : Nano) : Type 0 where
    pub cert : Str
    pub pems : Str
    pub has_cert : lookup p.cert_path k.files ≡ some cert
    pub encoded : encode_all sys p cas ≡ ok pems
    pub has_bundle : lookup p.ca_path k.files ≡ some (cert ++ pems)

  abbrev Bundled : List Str → Nano × Ended Str → Type 0
  Bundled cas (k, comes path) = Bundle cas k × (path ≡ p.ca_path)
  Bundled cas (k, exits) = Unit

  behind_pair-Bundled :
      (cas : List Str) (r : Nano × Ended (Str × Str)) → Bundled cas (behind_pair sys p cas r)
  behind_pair-Bundled cas (k, exits) = tt
  behind_pair-Bundled cas (k, comes paths) = by_cert (lookup p.cert_path k.files) refl
    where
      by_write :
          (cert pems : Str)
          → lookup p.cert_path k.files ≡ some cert
          → encode_all sys p cas ≡ ok pems
          → (w : Dict Str × Option Str) → sys.write p.ca_path (cert ++ pems) k.files ≡ w
          → Bundled cas (bundle_written sys p k w)
      by_write cert pems had made (files, some l) e = tt
      by_write cert pems had made (files, none) e = (
        record {
          cert = cert;
          pems = pems;
          has_cert =
              ap (λ (w : Dict Str × Option Str). lookup p.cert_path w.0) (sym e)
              ∙ writes.others p.ca_path (cert ++ pems) p.cert_path k.files ca_apart
              ∙ had;
          encoded = made;
          has_bundle =
              ap (λ (w : Dict Str × Option Str). lookup p.ca_path w.0) (sym e)
              ∙ writes.kept p.ca_path (cert ++ pems) k.files
                  (ap (λ (w : Dict Str × Option Str). w.1) e);
        },
        refl,
      )

      by_pems :
          (cert : Str)
          → lookup p.cert_path k.files ≡ some cert
          → (r : Result Str Str) → encode_all sys p cas ≡ r
          → Bundled cas (bundle_of sys p cert r k)
      by_pems cert had (fail l) e = tt
      by_pems cert had (ok pems) e =
          by_write cert pems had e (sys.write p.ca_path (cert ++ pems) k.files) refl

      by_cert :
          (o : Option Str) → lookup p.cert_path k.files ≡ o → Bundled cas (with_cert sys p cas o k)
      by_cert none e = tt
      by_cert (some cert) e = by_pems cert e (encode_all sys p cas) refl

  -- What is text_written to a file is in it, other files stay, and the two paths differ. If the first
  -- call of RootCaFilePath of a process comes to a path, the file of that path holds the
  -- certificate that is in the API server's file, with every root of the tunnel as PEM behind it.
  root_ca_file_path-Bundle :
      (cas : List Str) (k k' : Nano) (path : Str)
      → k.root_ca ≡ false
      → root_ca_file_path sys p cas k ≡ (k', comes path)
      → Bundle cas k' × (path ≡ p.ca_path)
  unfolding root_ca_file_path
  root_ca_file_path-Bundle cas k k' path fresh h = subst (Bundled cas) h (
      subst (λ b. Bundled cas (bundle_once sys p cas b k)) (sym fresh)
        (behind_pair-Bundled cas (ensure_cert_key sys p (record k { root_ca = true }))))
