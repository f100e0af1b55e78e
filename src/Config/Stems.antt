-- ===== src/Config/Stems.antt =====
-- The files of the entries of `apt_repos`: `AptRepo::stem` in src/config.rs, in the resources that
-- src/bundles/apt.rs adds.
use ansible_playbooks.Common.{
  String, ◌≡◌, refl, sym, ap, ◌∙◌, Option, none, some, if◌then◌else◌, str_eq, ◌<>◌, List, [], ◌∷◌,
  true, Bool-cases, inl, inr, arith,
}
use mathlib.Core.Option.{some-injective}
use text.Mathlib.TextEquality.{eq_iff}
use ansible_playbooks.Config.{
  AptRepo, ubuntu, ubuntu_security, ubuntu_updates, ubuntu_backports, ubuntu_proposed,
  ppa_pv_safronov_backports, stem,
}
use ansible_playbooks.Plan
use ansible_playbooks.Plan.{Plan}
use ansible_playbooks.Backends.Registry.{Resource, file}
use ansible_playbooks.Backends.User.{contains_name}
use ansible_playbooks.Bundles.{Setting, pure, ◌>>=◌, add, new}
use ansible_playbooks.Bundles.Apt.{add_repo}

-- Where the resource writes a file.
abbrev pub path_of : Resource → List String
path_of (file f) = f.path ∷ []
path_of _ = []

abbrev pub written : Plan Resource → List String
written [] = []
written (node ∷ plan) = elim (path_of node.resource) [
  | [] ↦ written plan
  | ◌∷◌ path more ↦ path ∷ written plan
]

-- What the entry alone adds to an empty plan.
abbrev pub files_of : Setting → AptRepo → List String
files_of s repo = written (add_repo s repo new).1.plan

abbrev paths_of : AptRepo → List String
paths_of repo =
    ("/etc/apt/preferences.d/" <> stem repo <> ".pref")
    ∷ ("/etc/apt/sources.list.d/" <> stem repo <> ".list")
    ∷ []

files_of-paths : (s : Setting) (repo : AptRepo) → files_of s repo ≡ paths_of repo
unfolding add_repo add Plan.add pure ◌>>=◌
files_of-paths s repo = refl

-- The entry whose pin or list the path is.
abbrev owner_among : List AptRepo → String → Option AptRepo
owner_among [] path = none
owner_among (repo ∷ repos) path =
    if contains_name (paths_of repo) path then some repo else owner_among repos path

abbrev owner : String → Option AptRepo
owner = owner_among (
    ubuntu ∷ ubuntu_security ∷ ubuntu_updates ∷ ubuntu_backports ∷ ubuntu_proposed
    ∷ ppa_pv_safronov_backports ∷ [])

abbrev pin_of : AptRepo → String
pin_of repo = "/etc/apt/preferences.d/" <> stem repo <> ".pref"

abbrev list_of : AptRepo → String
list_of repo = "/etc/apt/sources.list.d/" <> stem repo <> ".list"

owner-pin : (repo : AptRepo) → owner (pin_of repo) ≡ some repo
unfolding stem
owner-pin ubuntu = refl
owner-pin ubuntu_security = refl
owner-pin ubuntu_updates = refl
owner-pin ubuntu_backports = refl
owner-pin ubuntu_proposed = refl
owner-pin ppa_pv_safronov_backports = refl

owner-list : (repo : AptRepo) → owner (list_of repo) ≡ some repo
unfolding stem
owner-list ubuntu = refl
owner-list ubuntu_security = refl
owner-list ubuntu_updates = refl
owner-list ubuntu_backports = refl
owner-list ubuntu_proposed = refl
owner-list ppa_pv_safronov_backports = refl

owner-paths :
    (repo : AptRepo) (path : String)
    → contains_name (paths_of repo) path ≡ true
    → owner path ≡ some repo
owner-paths repo path there = elim (Bool-cases (str_eq (pin_of repo) path)) [
  | inl pin ↦ ap owner (sym ((eq_iff (pin_of repo) path).0 pin)) ∙ owner-pin repo
  | inr other ↦
      let list : str_eq (list_of repo) path ≡ true = ground (arith, other, there) in
      ap owner (sym ((eq_iff (list_of repo) path).0 list)) ∙ owner-list repo
]

-- No file is written for two entries of `apt_repos`, whatever the host facts and the config: if a
-- path is among those of the files that `add_repo` adds for each, the entries are the same.
pub files_of-injective :
    (s : Setting) (a b : AptRepo) (path : String)
    → contains_name (files_of s a) path ≡ true
    → contains_name (files_of s b) path ≡ true
    → a ≡ b
files_of-injective s a b path for_a for_b =
    let own = λ (repo : AptRepo) (there : contains_name (files_of s repo) path ≡ true).
      owner-paths repo path
        (ap (λ paths. contains_name paths path) (sym (files_of-paths s repo)) ∙ there) in
    some-injective a b (sym (own a for_a) ∙ own b for_b)
