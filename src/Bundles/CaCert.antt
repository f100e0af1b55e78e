-- ===== src/Bundles/CaCert.antt =====
-- src/bundles/ca_cert.rs
use ansible_playbooks.Common.{◌<>◌, some, [], ◌∷◌, ◌++◌}
use ansible_playbooks.Resource.Ids.{ResourceId}
use ansible_playbooks.Backends.Registry.{Resource}
use ansible_playbooks.Backends.Defaults.{
  default_apt_package, default_command, default_file, default_marker,
}
use ansible_playbooks.Bundles.{Setting, Build, ◌>>=◌, add, each, memoized}
use ansible_playbooks.Bundles.Apt.{apt}

unfoldable pub build : Setting → Build ResourceId
build s = do
  apt_ready ← apt s
  pkg ← add (
      Resource.apt_package
        (record default_apt_package { name = "ca-certificates"; deps = apt_ready ∷ [] }))
  cert_ids ←
      each
        (λ (name, body). add (
          Resource.file (record default_file {
            path = ("/usr/local/share/ca-certificates/" <> name <> ".pem");
            content = body;
            mode = some 0o644;
            deps = pkg ∷ [];
          })))
        s.config.ca_cert
  let update_deps = (pkg ∷ []) ++ cert_ids
  update ← add (
      Resource.command (record default_command {
        name = "update-ca-certificates";
        argv = "update-ca-certificates" ∷ [];
        trigger_on = some (cert_ids);
        deps = update_deps;
      }))
  let all = (pkg ∷ []) ++ (cert_ids ++ (update ∷ []))
  add (Resource.marker (record default_marker { name = "ca_cert:ready"; deps = all }))

-- `Context::ca_cert`
unfoldable pub ca_cert : Setting → Build ResourceId
ca_cert s = memoized "ca_cert" (build s)
