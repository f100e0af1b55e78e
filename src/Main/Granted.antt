-- ===== src/Main/Granted.antt =====
-- What the config of src/config.rs asks of an account, and that src/bundles/users.rs asks it of the
-- host.
use ansible_playbooks.Common.{
  ◌≡◌, refl, String, Bool, true, false, not, ◌||◌, Option, none, some, List, [], ◌∷◌, ◌++◌, arith,
  All, get_elem?, if◌then◌else◌, str_eq,
}
use text.Mathlib.TextEquality.{eq_iff}
use ansible_playbooks.Resource.Ids.{ResourceId}
use ansible_playbooks.Plan.{Node}
use ansible_playbooks.Config.{UserSpec}
use ansible_playbooks.Backends.User.{User, contains_name}
use ansible_playbooks.Backends.Registry.{Resource, user}
use ansible_playbooks.Bundles.{Context}
use ansible_playbooks.Bundles.Registers.{Has}
use ansible_playbooks.Bundles.Users.{groups_of, shell_or_bash}
use ansible_playbooks.Executor.Run.Notify.{any-append}

-- All of the names are among the groups.
abbrev pub InGroups : List String → List String → Type 0
InGroups groups names = All (λ name. contains_name groups name ≡ true) names

abbrev usual_groups : List String
usual_groups =
    "audio" ∷ "cdrom" ∷ "dip" ∷ "plugdev" ∷ "video" ∷ "disk" ∷ "nix-users" ∷ "dialout" ∷ []

-- The account is the one that the config describes: it is in every group that the config lists,
-- in the eight groups of every user, and in `sudo` if it is an administrator.
pub record IsGranted (name : String) (spec : UserSpec) (u : User) : Type 0 where
  pub named : u.name ≡ name
  pub numbered : u.uid ≡ spec.uid
  pub described : u.comment ≡ spec.comment
  pub housed : u.home ≡ spec.home
  pub secret : u.password_hash ≡ spec.password
  pub shelled : u.shell ≡ some (elim spec.shell [ none ↦ "/bin/bash" | some shell ↦ shell ])
  pub listed : InGroups u.groups spec.groups
  pub usual : InGroups u.groups usual_groups
  pub admin : (not spec.admin || contains_name u.groups "sudo") ≡ true

-- The plan has the account.
pub record HasAccount (name : String) (spec : UserSpec) (c : Context) : Type 0 where
  pub place : ResourceId
  pub node : Node Resource
  pub found : get_elem? c.plan place ≡ some node
  pub account : User
  pub same : node.resource ≡ user account
  pub granted : IsGranted name spec account

All-mono :
    {P Q : String → Type 0} (names : List String)
    → ((name : String) → P name → Q name)
    → All P names
    → All Q names
All-mono [] h all = tt
All-mono (name ∷ names) h all = (h name all.0, All-mono names h all.1)

contains-append :
    (front groups : List String) (name : String)
    → contains_name groups name ≡ true
    → contains_name (front ++ groups) name ≡ true
contains-append front groups name there =
    ground (arith, any-append (λ n. str_eq n name) front groups, there)

InGroups-self : (groups : List String) → InGroups groups groups
InGroups-self [] = tt
InGroups-self (g ∷ groups) = (
  ground (arith, (eq_iff g g).1 refl),
  All-mono groups (λ name there. contains-append (g ∷ []) groups name there) (InGroups-self groups),
)

-- What the bundle asks of the host.
abbrev pub asked : String → UserSpec → User → User
asked name spec blank = record blank {
  name = name;
  uid = spec.uid;
  comment = spec.comment;
  home = spec.home;
  shell = shell_or_bash spec.shell;
  groups = groups_of spec;
  password_hash = spec.password;
  create_home = true;
}

shell_or_bash-some :
    (shell : Option String)
    → shell_or_bash shell ≡ some (elim shell [ none ↦ "/bin/bash" | some s ↦ s ])
shell_or_bash-some none = refl
shell_or_bash-some (some s) = refl

admin-sudo :
    (front groups : List String) (b : Bool)
    → (not b || contains_name (front ++ ((if b then "sudo" ∷ [] else []) ++ groups)) "sudo") ≡ true
admin-sudo front groups false = refl
admin-sudo front groups true = contains-append front ("sudo" ∷ groups) "sudo" refl

groups_of-listed : (spec : UserSpec) → InGroups (groups_of spec) spec.groups
unfolding groups_of
groups_of-listed spec =
    All-mono spec.groups
      (λ name there.
        contains-append usual_groups _ name
          (contains-append (if spec.admin then "sudo" ∷ [] else []) spec.groups name there))
      (InGroups-self spec.groups)

asked-IsGranted :
    (name : String) (spec : UserSpec) (blank : User) → IsGranted name spec (asked name spec blank)
unfolding groups_of
asked-IsGranted name spec blank = record {
  named = refl;
  numbered = refl;
  described = refl;
  housed = refl;
  secret = refl;
  shelled = shell_or_bash-some spec.shell;
  listed = groups_of-listed spec;
  usual = (refl, (refl, (refl, (refl, (refl, (refl, (refl, (refl, tt))))))));
  admin = admin-sudo usual_groups spec.groups spec.admin;
}

pub Has-HasAccount :
    (name : String) (spec : UserSpec) (blank : User) (c : Context)
    → Has (user (asked name spec blank)) c
    → HasAccount name spec c
Has-HasAccount name spec blank c h = record {
  place = h.place;
  node = h.node;
  found = h.found;
  account = asked name spec blank;
  same = h.same;
  granted = asked-IsGranted name spec blank;
}
