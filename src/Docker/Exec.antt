-- ===== src/Docker/Exec.antt =====
-- ExecSync of pkg/driver/docker/docker.go: a command that begins with the sentinel runs in the
-- container's sandbox.
pub mod Target
use nanokube.Prelude.{
  ℕ, zero, suc, ◌+◌, ◌-◌, ◌*◌, ◌/◌, ◌%◌, ◌^◌, ◌≤◌, ◌<◌, ◌≡◌, refl, sym, ap, ◌∙◌, subst, ◌≢◌, ◌↔◌,
  ◌⊎◌, inl, inr, Bool, true, false, ◌&&◌, ◌||◌, not, Option, none, some, List, [], ◌∷◌, ◌++◌, map,
  arith, ltb, leb, ◌==◌, if◌then◌else◌, ltb→lt, lt→ltb, leb→le, ==_iff, Bool-cases, Option-cases,
  length, take, drop, length-append, length-drop, length-take, take-append, drop-append,
  take-append-drop, All, All-append, All-split, Str, str, same, same_iff, same_refl, same_ne,
  member, append_left_cancel, has_prefix, has_prefix-append, Dict, lookup, insert, copy_into, IsMap,
  insert-IsMap, or_else, lookup-copy_into, lookup-insert, lookup-insert_self, lookup-insert_ne,
  value_of, Returns, Returns-some, Result, ok, fail, Result-cases,
}
use nanokube.Tags.Decimal.{ℤ, pos, negsuc}
use nanokube.Tags.Builder.{get, hydrate, key_sandbox_uid}
use nanokube.Docker.Listing.{Inspect}
use nanokube.Backend.Probes.{sandbox_exec_sentinel}

pub data ExecError : Type 0 where
  runtime_error : Str → ExecError
  status_error : Str → ExecError
  no_sandbox : Str → ExecError
  timed_out : List Str → ExecError
  exited : List Str → ℤ → Str → ExecError

-- What StdCopy read of the two streams, and its error.
pub record Copied : Type 0 where
  pub stdout : Str
  pub stderr : Str
  pub error : Option Str

-- The output, and the error if there is one.
pub record Output : Type 0 where
  pub stdout : Str
  pub stderr : Str
  pub error : Option ExecError

-- The runtime's client and the clock: `copy` attaches to an exec and reads it to its end, and
-- `expired` is whether the context has an error then.
pub record ExecClient (S : Type 0) : Type 0 where
  pub inspect : S → Str → Result Str Inspect
  pub exec_create : S → Str → List Str → S × Result Str Str
  pub exec_copy : S → Str → S × Result Str Copied
  pub expired : S → Bool
  pub exec_inspect : S → Str → Result Str ℤ

abbrev pub nothing_read : ExecError → Output
nothing_read e = record { stdout = []; stderr = []; error = some e }

-- The command begins with the sentinel.
abbrev pub is_marked : List Str → Bool
is_marked [] = false
is_marked (w ∷ ws) = same w sandbox_exec_sentinel

abbrev pub unmarked : List Str → List Str
unmarked [] = []
unmarked (w ∷ ws) = ws

module _ {S : Type 0} (x : ExecClient S) where
  -- The exit code; only zero is a success.
  abbrev pub exit_error : List Str → Str → Result Str ℤ → Option ExecError
  exit_error cmd stderr (fail e) = some (runtime_error e)
  exit_error cmd stderr (ok (pos zero)) = none
  exit_error cmd stderr (ok (pos (suc n))) = some (exited cmd (pos (suc n)) stderr)
  exit_error cmd stderr (ok (negsuc n)) = some (exited cmd (negsuc n) stderr)

  abbrev pub copy_error : List Str → Str → S → Copied → Option ExecError
  copy_error cmd exec_id s c = if x.expired s then some (timed_out cmd) else elim c.error [
    | some e ↦ some (runtime_error e)
    | none ↦ exit_error cmd c.stderr (x.exec_inspect s exec_id)
  ]

  abbrev pub after_copy : List Str → Str → S × Result Str Copied → S × Output
  after_copy cmd exec_id (s, fail e) = (s, nothing_read (runtime_error e))
  after_copy cmd exec_id (s, ok c) =
      (s, record { stdout = c.stdout; stderr = c.stderr; error = copy_error cmd exec_id s c })

  abbrev pub exec_created : List Str → S × Result Str Str → S × Output
  exec_created cmd (s, fail e) = (s, nothing_read (runtime_error e))
  exec_created cmd (s, ok exec_id) = after_copy cmd exec_id (x.exec_copy s exec_id)

  -- ExecSync once the container and the command are settled.
  unfoldable pub exec_in : S → Str → List Str → S × Output
  exec_in s container_id cmd = exec_created cmd (x.exec_create s container_id cmd)

  abbrev pub exec_in_sandbox : S → Str → List Str → Str → S × Output
  exec_in_sandbox s container_id cmd sandbox_id =
      if same sandbox_id []
      then (s, nothing_read (no_sandbox container_id))
      else exec_in s sandbox_id cmd

  abbrev pub redirected : Str → Str → S → Str → List Str → Result Str Inspect → S × Output
  redirected prefix driver s container_id cmd (fail e) = (s, nothing_read (status_error e))
  redirected prefix driver s container_id cmd (ok i) =
      exec_in_sandbox s container_id cmd (get (hydrate prefix driver i.labels) key_sandbox_uid)

  unfoldable pub exec_sync : Str → Str → S → Str → List Str → S × Output
  exec_sync prefix driver s container_id cmd =
      if is_marked cmd
      then redirected prefix driver s container_id (unmarked cmd) (x.inspect s container_id)
      else exec_in s container_id cmd
