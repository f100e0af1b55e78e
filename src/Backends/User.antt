-- ===== src/Backends/User.antt =====
-- src/backends/user.rs
use ansible_playbooks.Common.{
  ℕ, String, ◌<>◌, Bool, true, false, not, ◌&&◌, str_eq, Option, none, some, List, [], ◌∷◌, ◌++◌,
  any, filterb, if◌then◌else◌,
}
use ansible_playbooks.Common.Results.{Action, pure, throw, ◌>>=◌, ◌>>◌}
use ansible_playbooks.Common.Text.{trim, join, split_whitespace, decimal}
use ansible_playbooks.Env.{Env, is_dry_run}
use ansible_playbooks.Error.{BackendError, backend_error}
use ansible_playbooks.Resource.Ids.{ResourceId, Skip, Changed, changed_yes, changed_no}
use ansible_playbooks.Host.{FilePath, Host, command, attempt_foreign}

pub record User : Type 0 where
  pub name : String
  pub uid : Option ℕ
  pub comment : Option String
  pub home : Option FilePath
  pub shell : Option FilePath
  pub groups : List String
  pub password_hash : Option String
  pub create_home : Bool
  pub system : Bool
  pub deps : List ResourceId
  pub skip_when : Skip

abbrev pub id_hint : User → String
id_hint u = "user:" <> u.name

abbrev pub is_empty_list : List String → Bool
is_empty_list [] = true
is_empty_list (x ∷ xs) = false

-- `contains` on a list of names
abbrev pub contains_name : List String → String → Bool
contains_name names name = any (λ n. str_eq n name) names

abbrev option_arg : String → Option String → List String
option_arg flag none = []
option_arg flag (some value) = flag ∷ value ∷ []

abbrev option_number : Option ℕ → Option String
option_number none = none
option_number (some n) = some (decimal n)

-- The arguments that `create_user` gives `useradd`.
unfoldable pub useradd_argv : User → List String
useradd_argv u =
    "useradd"
    ∷ (option_arg "-u" (option_number u.uid)
        ++ (option_arg "-c" u.comment
            ++ (option_arg "-d" u.home
                ++ (option_arg "-s" u.shell
                    ++ ((if is_empty_list u.groups then [] else "-G" ∷ join "," u.groups ∷ [])
                        ++ ((if u.create_home then "-m" ∷ [] else [])
                            ++ ((if u.system then "-r" ∷ [] else []) ++ (u.name ∷ []))))))))

module _ (H : Host) where
  -- A child process that has to succeed.
  abbrev must_succeed :
      (spawning failing : String) → List String → Action H.State BackendError (Unit {0})
  must_succeed spawning failing argv =
      attempt_foreign "user" spawning (H.spawn (command argv)) >>= λ output.
      if output.success
      then pure tt
      else throw (backend_error "user" (failing <> trim output.stderr))

  unfoldable pub sense_user_exists : String → Action H.State BackendError Bool
  sense_user_exists name =
      attempt_foreign "user" ("spawn `getent passwd " <> name <> "`")
        (H.spawn (command ("getent" ∷ "passwd" ∷ name ∷ [])))
      >>= λ output. pure output.success

  unfoldable pub sense_supplementary_groups : String → Action H.State BackendError (List String)
  unfolding split_whitespace
  sense_supplementary_groups name =
      attempt_foreign "user" ("spawn `id -nG " <> name <> "`")
        (H.spawn (command ("id" ∷ "-nG" ∷ name ∷ [])))
      >>= λ output. pure (if output.success then split_whitespace output.stdout else [])

  unfoldable pub create_user : User → Action H.State BackendError (Unit {0})
  unfolding useradd_argv trim
  create_user u =
      must_succeed ("spawn useradd for `" <> u.name <> "`") ("useradd `" <> u.name <> "` failed: ")
        (useradd_argv u)

  unfoldable pub add_to_groups : String → List String → Action H.State BackendError (Unit {0})
  unfolding join trim
  add_to_groups name groups =
      must_succeed ("spawn `usermod -aG ... " <> name <> "`")
        ("usermod -aG for `" <> name <> "` failed: ")
        ("usermod" ∷ "-aG" ∷ join "," groups ∷ name ∷ [])

  unfoldable pub set_password : String → String → Action H.State BackendError (Unit {0})
  unfolding trim
  set_password name hash =
      must_succeed ("spawn `usermod -p ... " <> name <> "`")
        ("usermod -p for `" <> name <> "` failed: ") ("usermod" ∷ "-p" ∷ hash ∷ name ∷ [])

  abbrev pub set_password_if : String → Option String → Action H.State BackendError (Unit {0})
  set_password_if name none = pure tt
  set_password_if name (some hash) = set_password name hash

  -- The groups of a user that exists.
  unfoldable pub current_groups : Bool → String → Action H.State BackendError (List String)
  current_groups true name = sense_supplementary_groups name
  current_groups false name = pure []

  unfoldable pub adjust_user :
      User → (exists : Bool) (groups_to_add : List String) → Action H.State BackendError Changed
  adjust_user u false groups_to_add = do
    create_user u
    set_password_if u.name u.password_hash
    pure changed_yes
  adjust_user u true groups_to_add =
      (if is_empty_list groups_to_add then pure tt else add_to_groups u.name groups_to_add)
      >> pure changed_yes

  unfoldable pub converge_one : User → Env → Action H.State BackendError Changed
  unfolding current_groups
  converge_one u env = do
    exists ← sense_user_exists u.name
    current ← current_groups exists u.name
    let groups_to_add = filterb (λ g. not (contains_name current g)) u.groups
    if exists && is_empty_list groups_to_add
        then pure changed_no
        else (if is_dry_run env then pure changed_yes else adjust_user u exists groups_to_add)
