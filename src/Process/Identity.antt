-- ===== src/Process/Identity.antt =====
-- MachineID, ensureCertKey and RootCaFilePath of pkg/nanokube.go: what the process writes to its
-- data directory once, and finds there after a restart.
pub mod Restart
pub mod Pair
use nanokube.Prelude.{
  ℕ, zero, suc, ◌+◌, ◌-◌, ◌*◌, ◌/◌, ◌%◌, ◌^◌, ◌≤◌, ◌<◌, ◌≡◌, refl, sym, ap, ◌∙◌, subst, ◌≢◌, ◌↔◌,
  ◌⊎◌, inl, inr, Bool, true, false, ◌&&◌, ◌||◌, not, Option, none, some, List, [], ◌∷◌, ◌++◌, map,
  arith, ltb, leb, ◌==◌, if◌then◌else◌, ltb→lt, lt→ltb, leb→le, ==_iff, Bool-cases, Option-cases,
  length, take, drop, length-append, length-drop, length-take, take-append, drop-append,
  take-append-drop, All, All-append, All-split, Str, str, same, same_iff, same_refl, same_ne,
  member, append_left_cancel, has_prefix, has_prefix-append, Dict, lookup, insert, copy_into, IsMap,
  insert-IsMap, or_else, lookup-copy_into, lookup-insert, lookup-insert_self, lookup-insert_ne,
  value_of, Returns, Returns-some, Result, ok, fail, Result-cases,
}
use nanokube.Process.Cancel.{Nano, Ended, comes, exits, System, cancel_nano, cancel_err, error_text}

-- The paths of the data directory, and the library's functions: the space around a text is cut
-- off, a certificate is generated with its key, and a certificate is written as PEM.
pub record Paths : Type 0 where
  pub pid_path : Str
  pub machine_id_path : Str
  pub cert_path : Str
  pub key_path : Str
  pub ca_path : Str
  pub trim_space : Str → Str
  pub generate : Result Str (Str × Str)
  pub encode : Str → Result Str Str
  -- the error for a file that is not there; every other file can be read
  pub not_found : Str

module _ (sys : System) (p : Paths) where
  -- The id of the file, empty if there is no file.
  abbrev pub id_in : Option Str → Str
  id_in none = []
  id_in (some text) = p.trim_space text

  abbrev pub id_persisted : Str → Nano → Dict Str × Option Str → Nano × Ended Str
  id_persisted id k (files, none) = (record k { files = files; machine_id = some id }, comes id)
  id_persisted id k (files, some e) = (
    cancel_err sys p.pid_path (str "persist machine id: " ++ e)
        (record k { files = files; machine_id = some [] }),
    exits,
  )

  -- A new id is a UUID.
  abbrev pub id_or_new : Str → Str → Nano → Nano × Ended Str
  id_or_new uuid [] k = id_persisted uuid k (sys.write p.machine_id_path (uuid ++ str "\n") k.files)
  id_or_new uuid (c ∷ id) k = (record k { machine_id = some (c ∷ id) }, comes (c ∷ id))

  abbrev pub id_once : Str → Option Str → Nano → Nano × Ended Str
  id_once uuid (some id) k = (k, comes id)
  id_once uuid none k = id_or_new uuid (id_in (lookup p.machine_id_path k.files)) k

  -- MachineID.
  unfoldable pub machine_id : Str → Nano → Nano × Ended Str
  unfolding cancel_err lookup
  machine_id uuid k = id_once uuid k.machine_id k

  abbrev pub key_written : Nano → Dict Str × Option Str → Nano × Ended (Str × Str)
  key_written k (files, none) = (record k { files = files }, comes (p.cert_path, p.key_path))
  key_written k (files, some e) = (
    cancel_nano sys p.pid_path (error_text (str "write key " ++ p.key_path ++ str ": " ++ e))
        (record k { files = files }),
    exits,
  )

  abbrev pub cert_written : Str → Nano → Dict Str × Option Str → Nano × Ended (Str × Str)
  cert_written key k (files, none) =
      key_written (record k { files = files }) (sys.write p.key_path key files)
  cert_written key k (files, some e) = (
    cancel_nano sys p.pid_path (error_text (str "write cert " ++ p.cert_path ++ str ": " ++ e))
        (record k { files = files }),
    exits,
  )

  abbrev pub generated : Result Str (Str × Str) → Nano → Nano × Ended (Str × Str)
  generated (ok (cert, key)) k = cert_written key k (sys.write p.cert_path cert k.files)
  generated (fail e) k =
      (cancel_nano sys p.pid_path (error_text (str "generate self-signed cert: " ++ e)) k, exits)

  -- Both files are there, or a new pair is made.
  abbrev pub pair_or_new : Option Str → Option Str → Nano → Nano × Ended (Str × Str)
  pair_or_new (some cert) (some key) k = (k, comes (p.cert_path, p.key_path))
  pair_or_new (some cert) none k = generated p.generate k
  pair_or_new none _ k = generated p.generate k

  abbrev pub pair_once : Bool → Nano → Nano × Ended (Str × Str)
  pair_once true k = (k, comes (p.cert_path, p.key_path))
  pair_once false k =
      pair_or_new (lookup p.cert_path k.files) (lookup p.key_path k.files)
        (record k { cert_key = true })

  -- ensureCertKey, with the two paths.
  unfoldable pub ensure_cert_key : Nano → Nano × Ended (Str × Str)
  unfolding cancel_nano lookup
  ensure_cert_key k = pair_once k.cert_key k

  -- The certificates as PEM, one behind another.
  unfoldable pub encode_all : List Str → Result Str Str
  encode_all [] = ok []
  encode_all (c ∷ cs) = elim (p.encode c) [
    | fail e ↦ fail e
    | ok text ↦ elim (encode_all cs) [ fail e ↦ fail e | ok more ↦ ok (text ++ more) ]
  ]

  abbrev pub failed_with : Str → Str → Nano → Nano × Ended Str
  failed_with what e k = (cancel_nano sys p.pid_path (error_text (what ++ e)) k, exits)

  abbrev pub bundle_written : Nano → Dict Str × Option Str → Nano × Ended Str
  bundle_written k (files, none) = (record k { files = files }, comes p.ca_path)
  bundle_written k (files, some e) =
      failed_with (str "write CA bundle " ++ p.ca_path ++ str ": ") e (record k { files = files })

  abbrev pub bundle_of : Str → Result Str Str → Nano → Nano × Ended Str
  bundle_of cert (ok pems) k = bundle_written k (sys.write p.ca_path (cert ++ pems) k.files)
  bundle_of cert (fail e) k = failed_with (str "PEM-encode tunnel CA cert: ") e k

  abbrev pub with_cert : List Str → Option Str → Nano → Nano × Ended Str
  with_cert cas (some cert) k = bundle_of cert (encode_all cas) k
  with_cert cas none k =
      failed_with (str "read apiserver cert " ++ p.cert_path ++ str ": ") p.not_found k

  abbrev pub behind_pair : List Str → Nano × Ended (Str × Str) → Nano × Ended Str
  behind_pair cas (k, exits) = (k, exits)
  behind_pair cas (k, comes paths) = with_cert cas (lookup p.cert_path k.files) k

  abbrev pub bundle_once : List Str → Bool → Nano → Nano × Ended Str
  bundle_once cas true k = (k, comes p.ca_path)
  bundle_once cas false k = behind_pair cas (ensure_cert_key (record k { root_ca = true }))

  -- RootCaFilePath, with the roots of the tunnel.
  unfoldable pub root_ca_file_path : List Str → Nano → Nano × Ended Str
  unfolding cancel_nano ensure_cert_key encode_all lookup
  root_ca_file_path cas k = bundle_once cas k.root_ca k
