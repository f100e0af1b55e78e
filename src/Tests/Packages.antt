-- ===== src/Tests/Packages.antt =====
-- A batch of packages on the small host, where dpkg lists nothing that is installed.
use ansible_playbooks.Common.{
  ◌≡◌, refl, String, false, List, [], ◌∷◌, Bool, true, str_eq, if◌then◌else◌, All, sym,
}
use ansible_playbooks.Common.Results.{Result, ok}
use ansible_playbooks.Error.{Cause}
use ansible_playbooks.Env.{with_run_mode, dry_run, is_dry_run}
use ansible_playbooks.Resource.Ids.{BatchFamily, never, changed_yes}
use ansible_playbooks.Host.{Host, Output}
use ansible_playbooks.Backends.AptPackage.{
  read_installed_packages, installed_names, installed_name, run_apt_update, run_apt_install,
  AptPackage,
}
use ansible_playbooks.Common.Text.{lines, split_by, finish_lines, strip_cr}
use ansible_playbooks.Backends.Batchers.Installs.{IsInstall}
use ansible_playbooks.Backends.Batchers.Installs.Answers.{converge_packages-IsInstall}
use ansible_playbooks.Backends.AptPackage.Listing.{Entry, print, IsPlainEntry}
use ansible_playbooks.Backends.AptPackage.Manager.{IsDpkg}
use ansible_playbooks.Backends.Registry.{Resource, apt_package}
use ansible_playbooks.Backends.Batchers.{
  converge_packages, collect, install_missing, package_batcher,
}
use ansible_playbooks.Backends.Forecast.Batches.{converge_batch-announced}
use ansible_playbooks.Tests.Toy.{Toy, toy, empty}
use ansible_playbooks.Tests.Fakes.{container}

abbrev host : Host
host = toy (λ _ _. false)

abbrev apt : String → Resource
apt name = Resource.apt_package (record { name = name; deps = []; skip_when = never })

abbrev packages : List Resource
packages = apt "git" ∷ apt "zsh" ∷ []

installs : (converge_packages host packages container empty).0 ≡ ok (changed_yes ∷ changed_yes ∷ [])
unfolding converge_packages collect read_installed_packages installed_names installed_name
    install_missing run_apt_update run_apt_install is_dry_run
installs = refl

converge_batch-announced_example :
    (converge_packages host packages (with_run_mode container dry_run) empty).0
    ≡ ok (changed_yes ∷ changed_yes ∷ [])
converge_batch-announced_example =
    converge_batch-announced host container BatchFamily.apt_package (package_batcher host) refl
      packages empty (changed_yes ∷ changed_yes ∷ []) installs

-- A host with one package, which is installed once its log is not empty.
abbrev database : List (List String) → List Entry
database [] = record { name = "git"; status = "un " } ∷ []
database (_ ∷ _) = record { name = "git"; status = "ii " } ∷ []

abbrev wants_git : List String → Bool
wants_git (flag ∷ name ∷ []) = str_eq name "git"
wants_git _ = false

abbrev answer : Bool → String → Result Cause Output
answer success text = ok (record { success = success; code = "0"; stdout = text; stderr = "" })

abbrev step : List String → Toy → Result Cause Output × Toy
step (program ∷ verb ∷ args) t =
    if str_eq program "dpkg-query"
    then (answer true (print (database t.log)), t)
    else (if str_eq verb "update" then (answer true "", t) else (
      answer (wants_git args) "",
      if wants_git args then record t { log = args ∷ t.log } else t,
    ))
step _ t = (answer false "", t)

abbrev debian : Host
debian = record host { spawn = λ c t. step c.argv t }

database-plain : (log : List (List String)) → All IsPlainEntry (database log)
database-plain [] = (((refl, (refl, (refl, tt))), (refl, (refl, (refl, tt)))), tt)
database-plain (_ ∷ _) = (((refl, (refl, (refl, tt))), (refl, (refl, (refl, tt)))), tt)

debian-IsDpkg : IsDpkg debian
debian-IsDpkg = record {
  database = λ t. database t.log;
  plain = λ t. database-plain t.log;
  listed = λ t o e good. let same : print (database t.log) ≡ o.stdout = cc in sym same;
}

abbrev git : AptPackage
git = record { name = "git"; deps = []; skip_when = never }

abbrev installed : Toy
installed = record empty { log = ("-y" ∷ "git" ∷ []) ∷ [] }

first_run :
    converge_packages debian (apt_package git ∷ []) container empty
    ≡ (ok (changed_yes ∷ []), installed)
unfolding converge_packages collect read_installed_packages installed_names installed_name lines
    split_by finish_lines strip_cr install_missing run_apt_update run_apt_install is_dry_run
first_run = refl

real : is_dry_run container ≡ false
unfolding is_dry_run
real = refl

converge_packages-IsInstall_example :
    IsInstall debian debian-IsDpkg ("git" ∷ []) empty installed (changed_yes ∷ [])
converge_packages-IsInstall_example =
    converge_packages-IsInstall debian debian-IsDpkg (git ∷ []) container empty installed
      (changed_yes ∷ []) real first_run
