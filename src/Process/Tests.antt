-- ===== src/Process/Tests.antt =====
-- The process on a store of files that takes every write, and an API server that refuses nothing.
use nanokube.Prelude.{
  ◌≡◌, refl, sym, ◌∙◌, subst, ◌≢◌, ◌↔◌, true, false, ◌||◌, none, some, [], ◌∷◌, ◌++◌, map, ◌==◌,
  if◌then◌else◌, Str, str, same, same_refl, insert, lookup-insert_self, lookup-insert_ne, ok,
}
use nanokube.Process.Cancel.{Nano, comes, System, new_nano}
use nanokube.Process.Identity.{Paths, machine_id, ensure_cert_key}
use nanokube.Process.Identity.Restart.{Writes, machine_id-machine_id}
use nanokube.Process.Identity.Pair.{Pair, ensure_cert_key-ensure_cert_key}
use nanokube.Process.Drain.{
  DrainPod, DrainAnswers, Turns, drain_node, cordons, lists, evicts, marks_not_ready, remaining,
  stays, failed_eviction, gone_in, drain_node-remaining,
}
use nanokube.Process.Access.{Replies, update_token}
use nanokube.Process.Access.Owner.{Minted, update_token-Minted}
use nanokube.Process.Options.{FilePath, OptionsImpl, in_data_dir, AtOrBelow, in_data_dir-AtOrBelow}

abbrev disk : System
disk = record {
  write = λ path text files. (insert path text files, none);
  remove = λ path files. files;
}

disk-Writes : Writes disk
disk-Writes = record {
  kept = λ path text files h. lookup-insert_self path text files;
  others = λ path text other files h. lookup-insert_ne path other text files h;
}

-- The newline of the file is cut off.
trim_line : Str → Str
trim_line [] = []
trim_line (c ∷ s) = if c == 10 then [] else c ∷ trim_line s

abbrev paths : Paths
paths = record {
  pid_path = str "pid";
  machine_id_path = str "id";
  cert_path = str "crt";
  key_path = str "key";
  ca_path = str "ca";
  trim_space = trim_line;
  generate = ok (str "CERT", str "KEY");
  encode = λ c. ok c;
  not_found = str "not found";
}

abbrev booted : Nano
booted = new_nano []

abbrev identified : Nano
identified = record booted {
  machine_id = some (str "u1");
  files = (str "id", str "u1" ++ str "\n") ∷ [];
}

abbrev restarted : Nano
restarted = new_nano identified.files

machine_id-machine_id_example :
    machine_id disk paths (str "u2") restarted
    ≡ (record restarted { machine_id = some (str "u1") }, comes (str "u1"))
unfolding trim_line same machine_id insert
machine_id-machine_id_example =
    machine_id-machine_id disk paths disk-Writes (str "u1") (str "u2") (str "u1") booted identified
      restarted refl refl refl refl refl refl

abbrev certified : Nano
certified = record booted {
  cert_key = true;
  files = (str "crt", str "CERT") ∷ (str "key", str "KEY") ∷ [];
}

key_path-ne : (s : Str) → same (str "key") s ≡ false → str "key" ≢ s
key_path-ne s h e =
    true_ne_false (sym (subst (λ t. same (str "key") t ≡ true) e (same_refl (str "key"))) ∙ h)
  where
    true_ne_false : true ≡ false → ⊥
    true_ne_false q = cc

paths-ne : str "key" ≢ str "crt"
unfolding same
paths-ne = key_path-ne (str "crt") refl

ensure_cert_key-ensure_cert_key_example :
    Pair disk paths disk-Writes paths-ne booted certified
    × (ensure_cert_key disk paths (new_nano certified.files)
        ≡ (record (new_nano certified.files) { cert_key = true }, comes (str "crt", str "key")))
unfolding ensure_cert_key insert
ensure_cert_key-ensure_cert_key_example =
    ensure_cert_key-ensure_cert_key disk paths disk-Writes paths-ne booted certified
      (new_nano certified.files) (str "crt", str "key") refl refl refl refl

abbrev web : DrainPod
web = record { name = str "web"; namespace = str "default"; annotations = []; owners = [] }

abbrev proxy : DrainPod
proxy = record {
  name = str "proxy";
  namespace = str "default";
  annotations = [];
  owners = str "DaemonSet" ∷ [];
}

abbrev answers : DrainAnswers
answers = record {
  cordon = λ node. none;
  list_pods = λ node. ok (web ∷ proxy ∷ []);
  evict = λ pod. none;
}

abbrev turns : Turns
turns = (λ pod. false) ∷ (λ pod. true) ∷ []

drain_node-remaining_example : drain_node answers turns (some (str "n1")) ≡ record {
  result = none;
  calls =
      cordons (str "n1") ∷ lists (str "n1") ∷ map evicts (remaining stays (web ∷ proxy ∷ []))
      ++ (marks_not_ready (str "n1") ∷ []);
  left =
      remaining
        (λ p. (stays p || failed_eviction (answers.evict p)) || gone_in turns p)
        (web ∷ proxy ∷ []);
  drain_done = true;
}
drain_node-remaining_example =
    drain_node-remaining answers turns (str "n1") (web ∷ proxy ∷ []) refl refl

drained : drain_node answers turns (some (str "n1")) ≡ record {
  result = none;
  calls = cordons (str "n1") ∷ lists (str "n1") ∷ evicts web ∷ marks_not_ready (str "n1") ∷ [];
  left = [];
  drain_done = true;
}
unfolding drain_node
drained = refl

abbrev taking : Replies
taking = record { refuses = λ a. none; token = λ namespace name. ok (namespace ++ name) }

update_token-Minted_example :
    Minted taking
      (str "system:serviceaccount:ns:sa")
      (update_token taking (str "system:serviceaccount:ns:sa"))
      (str "nssa")
unfolding update_token
update_token-Minted_example =
    update_token-Minted taking (str "system:serviceaccount:ns:sa") (str "nssa") refl

abbrev cleaned : FilePath
cleaned = record { join = λ a b. a ++ b; clean = λ p. p }

abbrev options : OptionsImpl
options = record { data_dir = str "/d"; dirs = [] }

in_data_dir-AtOrBelow_example :
    (in_data_dir cleaned (str "/d2") options ≡ true) ↔ AtOrBelow (str "/d2") (str "/d")
in_data_dir-AtOrBelow_example = in_data_dir-AtOrBelow cleaned (str "/d2") options
