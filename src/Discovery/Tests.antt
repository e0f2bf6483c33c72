-- ===== src/Discovery/Tests.antt =====
-- Discovery on a concrete service.
use nanokube.Prelude.{
  ℕ, ◌*◌, ◌≡◌, refl, ap, Option, none, some, List, [], ◌∷◌, ◌++◌, lookup, inl, inr, ◌↔◌,
  if◌then◌else◌, All, Str, str, same, ok, ◌==◌,
}
use nanokube.Discovery.Peers.{Tunnel, NetLibrary, replied, peers, values_of, peer_key}
use nanokube.Discovery.Peers.Agree.{peers-agree}
use nanokube.Discovery.Retry.{
  Response, Answer, answered, failed, Round, returns, context_done, timer_fires, await, at_work,
  Parsers, second, do_from, do_request, retry_after,
}
use nanokube.Discovery.Retry.Backoff.{SleepsOn, Explained, do_request-Explained}
use nanokube.Discovery.Seed.{
  Answers, Discovery, seed_of, new_discovery, seed_of-seed_of, create, get_or_create,
}

abbrev parsers : Parsers
parsers = record { atoi = λ v. if same v (str "5") then some 5 else none; until = λ v. none }

abbrev reply : ℕ → Str → Response
reply status after = record { status = status; retry_after = after; location = str "/bucket/" }

-- A round of an open context.
abbrev round : Answer → Round
round a = record { rewind = none; answer = a; cause = none; waits = timer_fires ∷ [] }

abbrev tried : List Round
tried = round (failed (str "refused")) ∷ round (answered (reply 429 (str "5"))) ∷ []

run_returns :
    do_request parsers (tried ++ round (answered (reply 503 [])) ∷ [])
    ≡ (returns (reply 503 []), second ∷ (6 * second) ∷ [])
unfolding do_from retry_after same await
run_returns = refl

tried-SleepsOn : All SleepsOn tried
tried-SleepsOn = (
  record { again = record { rewound = refl; retried = refl }; alive = refl; fired = ([], refl) },
  (
    record { again = record { rewound = refl; retried = refl }; alive = refl; fired = ([], refl) },
    tt,
  ),
)

-- The context is done while the loop sleeps; the timer fires behind that.
abbrev asleep : Round
asleep = record {
  rewind = none;
  answer = failed (str "refused");
  cause = none;
  waits = context_done ∷ timer_fires ∷ [];
}

run_hangs :
    do_request parsers (tried ++ asleep ∷ round (answered (reply 200 [])) ∷ [])
    ≡ (at_work, second ∷ (6 * second) ∷ (7 * second) ∷ [])
unfolding do_from retry_after same await
run_hangs = refl

do_request-Explained_example :
    ((do_request parsers (tried ++ asleep ∷ [])).0 ≡ at_work)
    ↔ Explained at_work (tried ++ asleep ∷ [])
do_request-Explained_example = do_request-Explained parsers (tried ++ asleep ∷ []) at_work

hangs_by_lem : (do_request parsers (tried ++ asleep ∷ [])).0 ≡ at_work
hangs_by_lem = (do_request-Explained parsers (tried ++ asleep ∷ []) at_work).1 (
    inr (
      tried,
      asleep,
      [],
      refl,
      tried-SleepsOn,
      (record { rewound = refl; retried = refl }, refl, inr (timer_fires ∷ [], refl)),
    ))

-- A service that knows one seed and gives it to who registers.
abbrev service : Answers
service = record {
  lookup_seed = λ s. ok (reply (if same s (str "bucket") then 200 else 404) []);
  register = ok (reply 201 []);
  base = λ l. str "bucket";
  remove_error = none;
  write_error = none;
}

abbrev first_run : Discovery
first_run = (seed_of service (new_discovery (str "gone") none)).0

first_run_seed : (first_run.cancelled ≡ none) × (first_run.seed ≡ str "bucket")
unfolding seed_of new_discovery get_or_create same create
first_run_seed = (refl, refl)

seed_of-seed_of_example :
    (first_run.seed_file ≡ some first_run.seed)
    × (first_run.env_seed ≡ first_run.seed)
    × ((seed_of service (new_discovery (str "other") first_run.seed_file)).1 ≡ first_run.seed)
    × ((seed_of service (new_discovery (str "other") first_run.seed_file)).0.cancelled ≡ none)
unfolding same
seed_of-seed_of_example =
    seed_of-seed_of service service (str "gone") (str "other") none first_run_seed.0
      (λ e. cc (first_run_seed.1, e))
      (
        reply 200 [],
        ap (λ s. ok (reply (if same s (str "bucket") then 200 else 404) [])) first_run_seed.1,
        refl,
      )
      refl

unfoldable before_colon : Str → Option Str
before_colon [] = none
before_colon (c ∷ cs) = let rest = before_colon cs in if c == b':' then some [] else consed c rest
  where
    consed : ℕ → Option Str → Option Str
    consed c none = none
    consed c (some s) = some (c ∷ s)

-- Two nodes, and a host with its port as `net` writes it where the host has no colon.
abbrev net_library : NetLibrary
net_library = record {
  join_host_port = λ host port. host ++ (b':' ∷ port);
  split_host_port = before_colon;
  unmarshal = λ body. ok (str "peer:n1:443" ∷ str "peer:n2:443" ∷ []);
  status_text = λ code. [];
}

abbrev n1 : Tunnel
n1 = record { hostname = str "n1"; port = str "443" }

abbrev n2 : Tunnel
n2 = record { hostname = str "n2"; port = str "443" }

peers-agree_example :
    lookup (str "n2") (peers net_library n1 (replied 200 (ok [])))
    ≡ lookup (str "n2") (peers net_library n2 (replied 200 (ok [])))
unfolding values_of peer_key before_colon
peers-agree_example =
    peers-agree net_library n1 n2 (n1 ∷ n2 ∷ []) (replied 200 (ok [])) (replied 200 (ok [])) refl
      refl (inl refl) (inr (inl refl)) refl refl (str "n2")
