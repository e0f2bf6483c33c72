-- ===== src/Discovery/Seed.antt =====
-- `Seed` of pkg/discovery/discovery.go: the name under which a node keeps its peers, which it has
-- from its environment, from its seed file, or from the service.
use nanokube.Prelude.{
  ◌≡◌, refl, sym, ap, ◌≢◌, inl, inr, Bool, true, false, not, Option, none, some, [], ◌++◌, ◌==◌,
  if◌then◌else◌, Option-cases, Str, str, same, same_ne, Result, ok, fail,
}
use nanokube.Discovery.Retry.{Response}

-- What the service and the system answer: each request is one call of `do`.
pub record Answers : Type 0 where
  pub lookup_seed : Str → Result Str Response
  pub register : Result Str Response
  -- the last part of a path, without slashes
  pub base : Str → Str
  -- the errors of removing and of writing the seed file; a file that is missing is no error
  pub remove_error : Option Str
  pub write_error : Option Str

pub record Discovery : Type 0 where
  pub env_seed : Str
  pub seed_file : Option Str
  pub seed : Str
  pub seed_done : Bool
  -- the first cause that `cancel` was called with
  pub cancelled : Option Str

abbrev pub cancel : Str → Discovery → Discovery
cancel why d = record d { cancelled = elim d.cancelled [ none ↦ some why | some w ↦ some w ] }

-- The answer to a registration.
abbrev pub registered : Answers → Result Str Response → Result Str Str
registered a (fail e) = fail (str "failed to do request: " ++ e)
registered a (ok resp) =
    if not (resp.status == 201)
    then fail (str "unexpected status code")
    else if same resp.location []
    then fail (str "missing Location header")
    else ok (a.base resp.location)

-- `create`.
abbrev pub create_from : Answers → Option Str → Discovery → Discovery × Result Str Str
create_from a (some e) d =
    (record d { env_seed = [] }, fail (str "failed to remove seed file: " ++ e))
create_from a none d = (record d { env_seed = []; seed_file = none }, registered a a.register)

unfoldable pub create : Answers → Discovery → Discovery × Result Str Str
create a d = create_from a a.remove_error d

-- The seed that is known: the file's, if it can be read, else the environment's.
abbrev pub known_seed : Option Str → Str → Str
known_seed none env = env
known_seed (some s) env = s

-- The answer to a lookup of a known seed.
abbrev pub looked_up : Answers → Str → Discovery → Result Str Response → Discovery × Result Str Str
looked_up a s d (fail e) = (d, fail (str "failed to do request: " ++ e))
looked_up a s d (ok resp) =
    if resp.status == 200
    then (d, ok s)
    else if not (resp.status == 404)
    then (d, fail (str "unexpected status code"))
    else create a d

-- `getOrCreate`.
unfoldable pub get_or_create : Answers → Discovery → Discovery × Result Str Str
get_or_create a d =
    let s = known_seed d.seed_file d.env_seed in
    if same s [] then create a d else looked_up a s d (a.lookup_seed s)

abbrev pub written : Option Str → Str → Discovery → Discovery
written (some e) s d = cancel (str "failed to write seed file: " ++ e) d
written none s d = record d { seed_file = some s; env_seed = s; seed = s }

abbrev pub obtained : Answers → Discovery × Result Str Str → Discovery
obtained a (d, fail e) = cancel e d
obtained a (d, ok s) = written a.write_error s d

-- `Seed`, with its `sync.Once`; the second component is what it returns.
abbrev pub after_once : Answers → Bool → Discovery → Discovery
after_once a true d = d
after_once a false d = record (obtained a (get_or_create a d)) { seed_done = true }

unfoldable pub seed_of : Answers → Discovery → Discovery × Str
seed_of a d = (after_once a d.seed_done d, (after_once a d.seed_done d).seed)

-- A process that has just started, with this environment and this file.
unfoldable pub new_discovery : Str → Option Str → Discovery
new_discovery env file = record {
  env_seed = env;
  seed_file = file;
  seed = [];
  seed_done = false;
  cancelled = none;
}

-- What a process that is alive behind its first call of Seed has kept.
record Kept (d : Discovery) : Type 0 where
  on_disk : d.seed_file ≡ some d.seed
  in_env : d.env_seed ≡ d.seed

cancel-cancelled : (why : Str) (d : Discovery) → (cancel why d).cancelled ≢ none
cancel-cancelled why d h = elim (Option-cases d.cancelled) [
  | inl e ↦ cc (ap (λ o. elim o as (λ _. Option Str) [ none ↦ some why | some w ↦ some w ]) e, h)
  | inr (w, e) ↦
      cc (ap (λ o. elim o as (λ _. Option Str) [ none ↦ some why | some w ↦ some w ]) e, h)
]

written-Kept :
    (o : Option Str) (s : Str) (d : Discovery)
    → (written o s d).cancelled ≡ none
    → Kept (written o s d)
written-Kept none s d h = record { on_disk = refl; in_env = refl }
written-Kept (some e) s d h = absurd (cancel-cancelled _ d h)

obtained-Kept :
    (a : Answers) (r : Discovery × Result Str Str)
    → (obtained a r).cancelled ≡ none
    → Kept (obtained a r)
obtained-Kept a (d, ok s) h = written-Kept a.write_error s d h
obtained-Kept a (d, fail e) h = absurd (cancel-cancelled e d h)

-- The service knows a seed.
abbrev pub Knows : Answers → Str → Type 0
Knows a s = (resp : Response) × (a.lookup_seed s ≡ ok resp) × (resp.status ≡ 200)

get_or_create-known :
    (a : Answers) (d : Discovery) (s : Str)
    → known_seed d.seed_file d.env_seed ≡ s
    → s ≢ []
    → Knows a s
    → get_or_create a d ≡ (d, ok s)
unfolding get_or_create
get_or_create-known a d s e some_seed (resp, found, fine) =
    rw (e, same_ne s [] some_seed, found, get_or_create) (rw fine refl)

-- If a process obtained a seed that is not empty and was not cancelled, the seed is in its file and
-- its environment; and a process that starts later from that file, whatever its environment, has
-- the same seed if the service knows it and the file can be written, and is not cancelled.
pub seed_of-seed_of :
    (a a' : Answers) (env env' : Str) (file : Option Str)
    → let d = (seed_of a (new_discovery env file)).0 in
      d.cancelled ≡ none
      → d.seed ≢ []
      → Knows a' d.seed
      → a'.write_error ≡ none
      → (d.seed_file ≡ some d.seed)
        × (d.env_seed ≡ d.seed)
        × ((seed_of a' (new_discovery env' d.seed_file)).1 ≡ d.seed)
        × ((seed_of a' (new_discovery env' d.seed_file)).0.cancelled ≡ none)
unfolding seed_of new_discovery
seed_of-seed_of a a' env env' file alive some_seed knows writes =
    let kept = obtained-Kept a (get_or_create a (new_discovery env file)) alive in
    let s : Str = (seed_of a (new_discovery env file)).0.seed in
    let again = get_or_create-known a' (new_discovery env' (some s)) s refl some_seed knows in
    (
      kept.on_disk,
      kept.in_env,
      rw kept.on_disk (rw again (rw writes refl)),
      rw kept.on_disk (rw again (rw writes refl)),
    )

after_once-done :
    (a : Answers) (b : Bool) (d : Discovery) → b ≡ d.seed_done → (after_once a b d).seed_done ≡ true
after_once-done a true d e = sym e
after_once-done a false d e = refl

-- A second call of Seed changes nothing and returns what the first did, whatever has changed in the
-- answers of the service and the system.
seed_of_once : (a a' : Answers) (d : Discovery) → seed_of a' (seed_of a d).0 ≡ seed_of a d
unfolding seed_of
seed_of_once a a' d =
    let x = after_once a d.seed_done d in
    ap (λ b. (after_once a' b x, (after_once a' b x).seed)) (after_once-done a d.seed_done d refl)
