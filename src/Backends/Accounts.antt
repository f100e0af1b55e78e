-- ===== src/Backends/Accounts.antt =====
-- `lookup_uid` and `lookup_gid`, which src/backends/file.rs and directory.rs each define.
pub mod Lookups
use ansible_playbooks.Common.{ℕ, String, ◌<>◌, Option, none, some, List, [], ◌∷◌, if◌then◌else◌}
use ansible_playbooks.Common.Results.{Result, ok, err, Action, pure, throw, lift, ◌>>=◌}
use ansible_playbooks.Common.Text.{split_by, split_on, parse_u32}
use ansible_playbooks.Error.{BackendError, backend_error}
use ansible_playbooks.Host.{Host, command, attempt_foreign}

abbrev number_or : BackendError → Option ℕ → Result BackendError ℕ
number_or e none = err e
number_or e (some n) = ok n

-- The third of the fields that colons separate. Fewer than three are malformed.
abbrev pub third_field :
    (malformed : BackendError) (not_numeric : String → BackendError)
    → List String
    → Result BackendError ℕ
third_field malformed not_numeric (name ∷ secret ∷ number ∷ more) =
    number_or (not_numeric number) (parse_u32 number)
third_field malformed not_numeric _ = err malformed

-- `match &self.owner { Some(name) => Some(lookup(name).await?), None => None }`
unfoldable pub lookup_named :
    {S : Type 0}
    → (String → Action S BackendError ℕ)
    → Option String
    → Action S BackendError (Option ℕ)
lookup_named look none = pure none
lookup_named look (some name) = look name >>= λ n. pure (some n)

module _ (H : Host) (backend : String) where
  unfoldable pub lookup_uid : String → Action H.State BackendError ℕ
  unfolding split_by parse_u32
  lookup_uid name =
      attempt_foreign backend ("spawn getent passwd " <> name)
        (H.spawn (command ("getent" ∷ "passwd" ∷ name ∷ [])))
      >>= λ output.
          if output.success
          then lift (
              third_field
                (backend_error backend
                  ("malformed getent passwd output for `" <> name <> "`: " <> output.stdout))
                (λ field.
                  backend_error backend
                    ("getent passwd uid for `" <> name <> "` is not numeric: " <> field))
                (split_on b':' output.stdout))
          else throw (backend_error backend ("user `" <> name <> "` not found via getent passwd"))

  unfoldable pub lookup_gid : String → Action H.State BackendError ℕ
  unfolding split_by parse_u32
  lookup_gid name =
      attempt_foreign backend ("spawn getent group " <> name)
        (H.spawn (command ("getent" ∷ "group" ∷ name ∷ [])))
      >>= λ output.
          if output.success
          then lift (
              third_field
                (backend_error backend
                  ("malformed getent group output for `" <> name <> "`: " <> output.stdout))
                (λ field.
                  backend_error backend
                    ("getent group gid for `" <> name <> "` is not numeric: " <> field))
                (split_on b':' output.stdout))
          else throw (backend_error backend ("group `" <> name <> "` not found via getent group"))
