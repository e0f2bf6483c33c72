-- ===== src/Docker/Exec/Target.antt =====
-- Where a rewritten probe runs.
use nanokube.Prelude.{
  ℕ, ◌≤◌, ◌≡◌, refl, ap, ◌∙◌, Bool, true, false, Option, none, some, List, [], ◌∷◌, Str, same, Dict,
  ok,
}
use nanokube.Tags.Decimal.{ℤ, max_uint32}
use nanokube.Tags.Builder.{Codec, SandboxConfig, ContainerConfig, get, hydrate, key_sandbox_uid}
use nanokube.Tags.Builder.Reading.{IsLawful, built, container_builder-hydrate}
use nanokube.Docker.Listing.{Inspect}
use nanokube.Docker.Exec.{ExecClient, exec_sync, is_marked, redirected, exec_in_sandbox}
use nanokube.Backend.Probes.{
  sandbox_exec_sentinel, IntOrString, Probe, HttpGetAction, rewrite_probe, rewrite_by, wget_args,
  nc_args, timeout_of,
}

-- Whether the kubelet would run the probe over the network.
abbrev pub by_network : Option HttpGetAction → Option IntOrString → Option ℤ → Bool
by_network none none none = false
by_network _ _ _ = true

abbrev pub is_network : Probe → Bool
is_network p = by_network p.http_get p.tcp_socket p.grpc

-- A command for the sandbox, behind the sentinel.
record IsMarked (exec : Option (List Str)) : Type 0 where
  cmd : List Str
  marked : exec ≡ some (sandbox_exec_sentinel ∷ cmd)
  plain : is_marked cmd ≡ false

rewrite_probe-IsMarked :
    (int_value : IntOrString → ℤ) (p : Probe)
    → is_network p ≡ true
    → IsMarked (rewrite_probe int_value p).exec
unfolding rewrite_probe same
rewrite_probe-IsMarked int_value p h = by_handlers p.http_get p.tcp_socket p.grpc h
  where
    by_handlers :
        (g : Option HttpGetAction) (t : Option IntOrString) (r : Option ℤ)
        → by_network g t r ≡ true
        → IsMarked (rewrite_by int_value p g t r).exec
    by_handlers (some g) t r h = record {
      cmd = wget_args (timeout_of p.timeout_seconds) (int_value g.port) g;
      marked = refl;
      plain = refl;
    }
    by_handlers none (some port) r h = record {
      cmd = nc_args (timeout_of p.timeout_seconds) (int_value port);
      marked = refl;
      plain = refl;
    }
    by_handlers none none (some port) h = record {
      cmd = nc_args (timeout_of p.timeout_seconds) port;
      marked = refl;
      plain = refl;
    }
    by_handlers none none none h = cc

module _ {S : Type 0} (x : ExecClient S) (prefix driver : Str) (s : S) where
  exec_sync-marked :
      (container_id sandbox_id : Str) (cmd : List Str) (i : Inspect)
      → x.inspect s container_id ≡ ok i
      → get (hydrate prefix driver i.labels) key_sandbox_uid ≡ sandbox_id
      → same sandbox_id [] ≡ false
      → is_marked cmd ≡ false
      → exec_sync x prefix driver s container_id (sandbox_exec_sentinel ∷ cmd)
        ≡ exec_sync x prefix driver s sandbox_id cmd
  unfolding exec_sync same
  exec_sync-marked container_id sandbox_id cmd i found in_it there plain =
      ap (λ r. redirected x prefix driver s container_id cmd r) found
      ∙ ap (λ sandbox. exec_in_sandbox x s container_id cmd sandbox) in_it
      ∙ rw (there, plain) refl

-- A probe over the network that Admit rewrote is a command behind the sentinel, and ExecSync of it
-- in a container does what ExecSync of the command alone does in the container's sandbox. The
-- container is there and has the tags that CreateContainer gives it, with a 32-bit attempt and a
-- codec that reads the configs back, and the sandbox's id is not empty.
pub exec_sync-rewrite_probe :
    {S : Type 0} (x : ExecClient S) (c : Codec) (prefix driver : Str) (s : S)
    (int_value : IntOrString → ℤ) (p : Probe) (container_id sandbox_id name : Str) (n : ℕ)
    (config : ContainerConfig) (pod : SandboxConfig) (i : Inspect)
    → is_network p ≡ true
    → x.inspect s container_id ≡ ok i
    → i.labels ≡ (built c prefix driver name sandbox_id n config pod).tags
    → n ≤ max_uint32
    → IsLawful c pod config
    → same sandbox_id [] ≡ false
    → (cmd : List Str) × ((rewrite_probe int_value p).exec ≡ some (sandbox_exec_sentinel ∷ cmd))
      × (exec_sync x prefix driver s container_id (sandbox_exec_sentinel ∷ cmd)
          ≡ exec_sync x prefix driver s sandbox_id cmd)
exec_sync-rewrite_probe x c prefix driver s int_value p container_id sandbox_id name n config pod i
      over found tags small lawful there =
    let m = rewrite_probe-IsMarked int_value p over in
    let sandbox : get (hydrate prefix driver i.labels) key_sandbox_uid ≡ sandbox_id =
      ap (λ (t : Dict Str). get (hydrate prefix driver t) key_sandbox_uid) tags
      ∙ (container_builder-hydrate c prefix driver name sandbox_id n config pod small lawful).1 in
    (
      m.cmd,
      m.marked,
      exec_sync-marked x prefix driver s container_id sandbox_id m.cmd i found sandbox there
          m.plain,
    )
