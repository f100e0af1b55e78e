-- ===== src/Tests/Reliable.antt =====
-- A plan of the repository's own resources whose run succeeds on the small host.
use ansible_playbooks.Common.{
  ℕ, zero, suc, ◌<◌, ◌≡◌, refl, some, none, List, [], ◌∷◌, map, length, arith, count, get_elem?,
  All, sym, subst, ◌∙◌,
}
use ansible_playbooks.Common.Results.{ok}
use ansible_playbooks.Common.Text.{decimal}
use ansible_playbooks.Env.{Env, is_dry_run}
use ansible_playbooks.Resource.{Batcher}
use ansible_playbooks.Resource.Ids.{BatchFamily, Changed, changed_no, changed_yes}
use ansible_playbooks.Plan.{Node, Plan}
use ansible_playbooks.Backends.Registry
use ansible_playbooks.Backends.Registry.{Resource, backends}
use ansible_playbooks.Backends.Defaults.{default_marker, default_command}
use ansible_playbooks.Backends.Command
use ansible_playbooks.Backends.Marker
use ansible_playbooks.Backends.AptPackage.{
  read_installed_packages, installed_names, installed_name, run_apt_update, run_apt_install,
  run_apt_remove,
}
use ansible_playbooks.Common.Text.{lines, split_by, finish_lines, strip_cr}
use ansible_playbooks.Backends.Batchers.{
  batchers, converge_packages, converge_absent_packages, collect, install_missing, remove_present,
  package_batcher, absent_package_batcher,
}
use ansible_playbooks.Executor.Report.{Report}
use ansible_playbooks.Executor.Topo.Nodes.{deps_at}
use ansible_playbooks.Executor.Run.{run}
use ansible_playbooks.Executor.Run.Members.{MemberHas}
use ansible_playbooks.Executor.Run.Success.{IsOf, run-succeeds}
use ansible_playbooks.Tests.Toy.{Toy, empty}
use ansible_playbooks.Tests.Fakes.{container, in_order}
use ansible_playbooks.Tests.Backends.{host}

-- A marker, and a command behind it.
abbrev own_plan : Plan Resource
own_plan =
    record { id = 0; resource = Resource.marker (record default_marker { name = "ready" }) }
    ∷ record {
      id = 1;
      resource =
          Resource.command
            (record default_command { name = "hello"; argv = "echo" ∷ []; deps = 0 ∷ [] });
    }
    ∷ []

own_inside : (j d : ℕ) → 0 < count d (deps_at (backends host) own_plan j) → d < 2
own_inside zero d m = absurd (omega arith)
own_inside (suc zero) d m = ground arith
own_inside (suc (suc j)) d m = absurd (omega arith)

own_falls : (j d : ℕ) → 0 < count d (deps_at (backends host) own_plan j) → d < j
own_falls zero d m = absurd (omega arith)
own_falls (suc zero) d m = ground arith
own_falls (suc (suc j)) d m = absurd (omega arith)

own_one :
    (place : ℕ) (node : Node Resource)
    → get_elem? own_plan place ≡ some node
    → (env : Env) (s : Toy)
    → (c : Changed) × ((Registry.converge_one host node.resource env s).0 ≡ ok c) × Unit {0}
unfolding Registry.converge_one Marker.converge_one Command.converge_one Command.converge_argv
    Command.run_argv Command.untriggered is_dry_run
own_one zero node found env s = (changed_no, ground (arith, found), tt)
own_one (suc zero) node found env s = (changed_yes, ground (arith, found), tt)
own_one (suc (suc place)) node found env s = cc

no_batch :
    (place : ℕ) (node : Node Resource)
    → get_elem? own_plan place ≡ some node
    → Registry.batch_family node.resource ≡ none
no_batch zero node found = ground (arith, found)
no_batch (suc zero) node found = ground (arith, found)
no_batch (suc (suc place)) node found = cc

installs_nothing : (env : Env) (s : Toy) → (converge_packages host [] env s).0 ≡ ok []
unfolding converge_packages collect read_installed_packages installed_names installed_name lines
    split_by finish_lines strip_cr install_missing run_apt_update run_apt_install is_dry_run
installs_nothing env s = refl

removes_nothing : (env : Env) (s : Toy) → (converge_absent_packages host [] env s).0 ≡ ok []
unfolding converge_absent_packages collect read_installed_packages installed_names installed_name
    lines split_by finish_lines strip_cr remove_present run_apt_remove is_dry_run
removes_nothing env s = refl

abbrev Answers : Batcher Toy Resource → List (Node Resource) → Env → Toy → Type 0
Answers b nodes env s =
    (cs : List Changed) × ((b.converge_batch (map (λ node. node.resource) nodes) env s).0 ≡ ok cs)
    × (length cs ≡ length nodes)
    × Unit {0}

own_many :
    (family : BatchFamily) (b : Batcher Toy Resource)
    → batchers host family ≡ some b
    → (nodes : List (Node Resource))
    → All (MemberHas (backends host) (batchers host) (IsOf own_plan) (some family)) nodes
    → (env : Env) (s : Toy) → Unit {0}
    → Answers b nodes env s
own_many family b e (node ∷ nodes) listed env s _ =
    let alone = no_batch listed.0.0.0 node listed.0.0.1 in
    absurd (let same : none ≡ some family = sym alone ∙ listed.0.1 in cc)
own_many BatchFamily.apt_package b e [] listed env s _ =
    subst (λ b. Answers b [] env s) (let same : package_batcher host ≡ b = cc in same)
      ([], installs_nothing env s, refl, tt)
own_many BatchFamily.absent_apt_package b e [] listed env s _ =
    subst (λ b. Answers b [] env s) (let same : absent_package_batcher host ≡ b = cc in same)
      ([], removes_nothing env s, refl, tt)
own_many BatchFamily.apt_repo b e [] listed env s _ = cc
own_many BatchFamily.systemctl_enable b e [] listed env s _ = cc
own_many BatchFamily.sysctl b e [] listed env s _ = cc
own_many BatchFamily.kernel_module b e [] listed env s _ = cc

run-succeeds_example :
    (report : Report) × ((run
        (backends host)
        (batchers host)
        decimal
        own_plan
        in_order
        container
        empty).0
      ≡ ok report)
run-succeeds_example =
    run-succeeds (backends host) (batchers host) decimal own_plan (λ _. Unit {0})
      (record {
        one = λ node listed env s _. own_one listed.0 node listed.1 env s;
        many = own_many;
        joins = λ s _. refl;
      })
      (λ j. j) (record { in_range = own_inside; falls = own_falls }) in_order container empty tt
