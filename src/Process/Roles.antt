-- ===== src/Process/Roles.antt =====
-- updateRBAC of pkg/command.go, and the paths of the API server that it lets a subject use.
use nanokube.Prelude.{
  ℕ, ◌≡◌, refl, sym, ap, subst, ◌⊎◌, inl, inr, Bool, true, false, Option, none, some, List, [], ◌∷◌,
  ◌++◌, map, ◌==◌, if◌then◌else◌, ==_iff, length, drop, All, Str, str, has_prefix,
}
use mathlib.Core.List.{append_assoc}
use nanokube.Process.Access.{
  Apply, role_applied, aggregate_applied, binding_applied, user_subject, Replies, colon,
}

-- The paths of the kubelet's server, behind which stand those of the storage and before which
-- those of the backends' services.
abbrev pub kubelet_paths : List Str
kubelet_paths =
    str "/attach/"
    ∷ str "/checkpoint/"
    ∷ str "/containerLogs/"
    ∷ str "/debug/"
    ∷ str "/exec/"
    ∷ str "/logs/"
    ∷ str "/metrics/"
    ∷ str "/pods/"
    ∷ str "/portForward/"
    ∷ str "/run/"
    ∷ str "/runningpods/"
    ∷ str "/stats/"
    ∷ []

abbrev pub added_paths : List Str → List Str → List Str
added_paths storage services = (storage ++ kubelet_paths) ++ services

-- `strings.TrimSuffix` of a slash.
unfoldable pub trim_slash : Str → Str
trim_slash [] = []
trim_slash (c ∷ []) = if c == b'/' then [] else c ∷ []
trim_slash (c ∷ d ∷ s) = c ∷ trim_slash (d ∷ s)

-- `strings.Split` at slashes.
abbrev pub add_to_first : ℕ → List Str → List Str
add_to_first c [] = (c ∷ []) ∷ []
add_to_first c (s ∷ ss) = (c ∷ s) ∷ ss

unfoldable pub split_slashes : Str → List Str
split_slashes [] = [] ∷ []
split_slashes (c ∷ s) =
    let rest = split_slashes s in if c == b'/' then [] ∷ rest else add_to_first c rest

unfoldable pub joined : List Str → Str
joined [] = []
joined (s ∷ []) = s
joined (s ∷ t ∷ ss) = s ++ (colon ++ joined (t ∷ ss))

abbrev pub without_slash : Str → Str
without_slash [] = []
without_slash (c ∷ s) = if c == b'/' then s else c ∷ s

abbrev pub aggregate_role : Str
aggregate_role = str "system:kubelet"

abbrev pub system_prefix : Str
system_prefix = str "system:"

abbrev pub slug : Str → Str
slug subject =
    if has_prefix subject system_prefix then drop (length system_prefix) subject else subject

-- A request with its answer, before the requests that it does not end.
abbrev pub sent : Apply → List Apply × Option Str → Option Str → List Apply × Option Str
sent a rest (some e) = (a ∷ [], some e)
sent a rest none = (a ∷ rest.0, rest.1)

module _ (r : Replies) (kebab : Str → Str) where
  -- The role of a path.
  unfoldable pub role_of : Str → Apply
  unfolding trim_slash split_slashes joined
  role_of path =
      role_applied
        (aggregate_role
          ++ (colon ++ joined (map kebab (split_slashes (without_slash (trim_slash path))))))
        (trim_slash path ∷ (trim_slash path ++ str "/*") ∷ [])

  abbrev pub last_requests : Str → List Apply
  last_requests subject =
      aggregate_applied aggregate_role
      ∷ binding_applied (aggregate_role ++ (colon ++ slug subject)) aggregate_role
          (user_subject subject)
      ∷ []

  -- The requests up to one that is refused, and its error.
  unfoldable pub apply_all : List Apply → List Apply × Option Str
  apply_all [] = ([], none)
  apply_all (a ∷ as') = sent a (apply_all as') (r.refuses a)

  -- updateRBAC: the roles of the paths, and then the two requests that are tied to them. The
  -- error's text around the API server's is left out.
  unfoldable pub update_rbac : Str → List Str → List Apply × Option Str
  unfolding role_of apply_all has_prefix
  update_rbac subject paths = apply_all (map role_of paths ++ last_requests subject)

trim_slash-cases : (s : Str) → (s ≡ trim_slash s) ⊎ (s ≡ trim_slash s ++ str "/")
unfolding trim_slash
trim_slash-cases [] = inl refl
trim_slash-cases (c ∷ []) = by_test (c == b'/') refl
  where
    by_test :
        (b : Bool)
        → (c == b'/') ≡ b
        → ((c ∷ []) ≡ (if b then [] else c ∷ []))
          ⊎ ((c ∷ []) ≡ (if b then [] else c ∷ []) ++ str "/")
    by_test true e = inr (ap (λ x. x ∷ []) ((==_iff c b'/').0 e))
    by_test false e = inl refl
trim_slash-cases (c ∷ d ∷ s) = elim (trim_slash-cases (d ∷ s)) [
  | inl e ↦ inl (ap (λ l. c ∷ l) e)
  | inr e ↦ inr (ap (λ l. c ∷ l) e)
]

module _ (r : Replies) (kebab : Str → Str) where
  -- A path that a role lets its subjects use, by its URLs.
  pub record Granted (requests : List Apply) (path : Str) : Type 0 where
    pub before : List Apply
    pub after : List Apply
    pub role : Str
    pub base : Str
    pub asked : requests ≡ before ++ (role_applied role (base ∷ (base ++ str "/*") ∷ []) ∷ after)
    pub covers : (path ≡ base) ⊎ (path ≡ base ++ str "/")

  sent-none :
      (a : Apply) (as' : List Apply) (rest : List Apply × Option Str) (o : Option Str)
      → (rest.1 ≡ none → rest.0 ≡ as')
      → (sent a rest o).1 ≡ none
      → (sent a rest o).0 ≡ a ∷ as'
  sent-none a as' rest (some e) ih h = cc
  sent-none a as' rest none ih h = ap (λ l. a ∷ l) (ih h)

  apply_all-none :
      (as' : List Apply) → (apply_all r kebab as').1 ≡ none → (apply_all r kebab as').0 ≡ as'
  unfolding apply_all
  apply_all-none [] h = refl
  apply_all-none (a ∷ as') h =
      sent-none a as' (apply_all r kebab as') (r.refuses a) (apply_all-none as') h

  Granted-All :
      (before : List Apply) (paths : List Str) (rest : List Apply)
      → All (Granted (before ++ (map (role_of r kebab) paths ++ rest))) paths
  unfolding role_of
  Granted-All before [] rest = tt
  Granted-All before (path ∷ paths) rest = (
    record {
      before = before;
      after = map (role_of r kebab) paths ++ rest;
      role = _;
      base = trim_slash path;
      asked = refl;
      covers = trim_slash-cases path;
    },
    subst (λ l. All (Granted l) paths)
        (append_assoc before (role_of r kebab path ∷ []) (map (role_of r kebab) paths ++ rest))
        (Granted-All (before ++ (role_of r kebab path ∷ [])) paths rest),
  )

  -- If updateRBAC ends without an error, the API server was asked for a role for each of the paths,
  -- whose URLs are the path without a slash at its end, and what is below it; and behind them all,
  -- last of all, for the role that gathers them and for its binding to the subject.
  update_rbac-Granted :
      (subject : Str) (paths : List Str)
      → (update_rbac r kebab subject paths).1 ≡ none
      → All (Granted (update_rbac r kebab subject paths).0) paths
        × ((update_rbac r kebab subject paths).0
            ≡ map (role_of r kebab) paths ++ last_requests r kebab subject)
  unfolding update_rbac
  update_rbac-Granted subject paths h =
      let whole : (update_rbac r kebab subject paths).0
          ≡ map (role_of r kebab) paths ++ last_requests r kebab subject =
        apply_all-none (map (role_of r kebab) paths ++ last_requests r kebab subject) h in
      (
        subst (λ l. All (Granted l) paths) (sym whole)
            (Granted-All [] paths (last_requests r kebab subject)),
        whole,
      )
