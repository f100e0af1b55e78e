-- ===== src/Tests/Runs.antt =====
-- Runs of assembled plans, and what detection finds, on the small host.
use ansible_playbooks.Common.{
  ℕ, ◌≡◌, refl, true, false, none, some, [], ◌∷◌, if◌then◌else◌, str_eq, count, ltb, arith,
}
use ansible_playbooks.Common.Results.{ok}
use ansible_playbooks.Common.Text.{decimal}
use ansible_playbooks.Common.Text.{
  lines, finish_lines, split_by, strip_cr, strip_prefix, trim_matches, drop_front, drop_back,
  contains, trim, trim_start, trim_end, is_whitespace,
}
use ansible_playbooks.Env.{Env, any_changed}
use ansible_playbooks.Env.Detect.{
  detect, detect_container, codename_of, first_of_keys, first_value, value_of, architecture_of,
  kernel_release_of, in_virtualbox_of,
}
use ansible_playbooks.Env.Detect.Found.{IsFresh, detect-IsFresh}
use ansible_playbooks.Host.{Host}
use ansible_playbooks.Resource.Ids.{changed_no}
use ansible_playbooks.Plan
use ansible_playbooks.Plan.{Node, Plan, len}
use ansible_playbooks.Plan.Laws.{nil-IsNumbered, add-IsNumbered}
use ansible_playbooks.Backends.Registry
use ansible_playbooks.Backends.Registry.{Resource, backends}
use ansible_playbooks.Backends.Batchers.{batchers}
use ansible_playbooks.Backends.Marker
use ansible_playbooks.Backends.Marker.{Marker}
use ansible_playbooks.Backends.Markers.{any_changed-marker}
use ansible_playbooks.Backends.Defaults.{default_marker}
use ansible_playbooks.Backends.Accounts.Lookups.{entry, lookup_uid-entry, lookup_gid-entry}
use ansible_playbooks.Backends.Accounts.{lookup_uid, lookup_gid}
use ansible_playbooks.Backends.User
use ansible_playbooks.Executor.Report.{Report}
use ansible_playbooks.Executor.Topo.Nodes.{deps_at}
use ansible_playbooks.Executor.Run.{run_levels}
use ansible_playbooks.Executor.Run.Ids.{ids}
use ansible_playbooks.Executor.Run.Order.{IsSettled}
use ansible_playbooks.System.{execute}
use ansible_playbooks.Bundles.{Setting, add, pure, ◌>>=◌, each, find, insert, memoized}
use ansible_playbooks.Bundles.Users
use ansible_playbooks.Main.{BundleName, method, dispatch, dispatch_all, bundles_to_run, assemble}
use ansible_playbooks.Bundles.Fits.{AreIds}
use ansible_playbooks.Backends.Registry.{deps}
use ansible_playbooks.Main.Soundness.{assemble-bounded}
use ansible_playbooks.Main.Runs.{execute-assemble-report}
use ansible_playbooks.Tests.Toy.{Toy, empty, fresh_meta, toy}
use ansible_playbooks.Tests.Fakes.{container, in_order, Fake, fake}
use ansible_playbooks.Tests.Executor.{run_program}
use ansible_playbooks.Tests.Backends.{host}
use ansible_playbooks.Tests.Main.{setting, config, bob}

unfoldable assembly : Unit {0}
unfolding assemble bundles_to_run dispatch_all dispatch method Users.users Users.build
    Users.add_user Users.add_home memoized find insert each add pure ◌>>=◌ Plan.add
assembly = tt

-- No users: the plan is the marker alone.
abbrev nobody : Setting
nobody = record setting { config = record config { users = [] } }

abbrev only_marker : Report
only_marker = record {
  outcomes = record { id = 0; id_hint = "marker:users:ready"; changed = changed_no } ∷ [];
}

marker_ran :
    execute host (assemble nobody (BundleName.users ∷ [])) in_order container empty
    ≡ (ok only_marker, empty)
unfolding execute run_program assembly Registry.converge_one Marker.converge_one
marker_ran = refl

abbrev bob_only : Setting
bob_only = record setting { config = record config { users = ("bob", bob) ∷ [] } }

assemble-bounded_example : AreIds (0 ∷ []) 1
unfolding assembly
assemble-bounded_example =
    assemble-bounded bob_only (BundleName.users ∷ []) 1
      (record {
        id = 1;
        resource = Resource.marker (record default_marker { name = "users:ready"; deps = 0 ∷ [] });
      })
      refl

abbrev broken_host : Host
broken_host = toy (λ _ _. true)

execute-assemble-report_example :
    ((a : ℕ)
      → count a (ids only_marker.outcomes)
        ≡ (if ltb a (len (assemble nobody (BundleName.users ∷ []))) then 1 else 0))
    × IsSettled
        (deps_at (backends host) (assemble nobody (BundleName.users ∷ [])))
        []
        only_marker.outcomes
execute-assemble-report_example =
    execute-assemble-report host nobody (BundleName.users ∷ []) in_order container empty empty
      only_marker marker_ran

abbrev ready : Marker
ready = record default_marker { name = "ready" }

abbrev ready_plan : Plan Resource
ready_plan = (Plan.add [] (Resource.marker ready)).0

ready_ran :
    run_levels
      (backends host)
      (batchers host)
      decimal
      ready_plan
      in_order
      ((0 ∷ []) ∷ [])
      container
      []
      empty
    ≡ (
      ok (record { id = 0; id_hint = "marker:ready"; changed = changed_no } ∷ [], container),
      empty,
    )
unfolding run_program Registry.converge_one Marker.converge_one Plan.add
ready_ran = refl

any_changed-marker_example : any_changed container (0 ∷ 5 ∷ []) ≡ any_changed container (5 ∷ [])
unfolding Plan.add
any_changed-marker_example =
    any_changed-marker host ready_plan (add-IsNumbered [] (Resource.marker ready) nil-IsNumbered).0
      in_order ((0 ∷ []) ∷ []) container container
      (record { id = 0; id_hint = "marker:ready"; changed = changed_no } ∷ []) empty empty refl
      ready_ran 0 (record { id = 0; resource = Resource.marker ready }) ready refl refl (5 ∷ [])

-- A plan whose only node fails.
abbrev failing : Plan Fake
failing = record { id = 0; resource = record (fake "a" []) { fail = true } } ∷ []

abbrev noble : Toy
noble = record empty {
  files = λ p.
      if str_eq p "/etc/os-release" then some ("VERSION_CODENAME=noble\n", fresh_meta) else none;
}

-- Every child process of the small host prints the same.
abbrev found : Env
found = record container {
  is_container = false;
  architecture = "sudo docker";
  kernel_release = "sudo docker";
}

found_noble : (detect host "x86_64" noble).0 ≡ ok found
unfolding detect detect_container codename_of first_of_keys first_value value_of architecture_of
    kernel_release_of in_virtualbox_of lines finish_lines split_by strip_cr strip_prefix
    trim_matches drop_front drop_back contains trim trim_start trim_end is_whitespace
found_noble = refl

detect-IsFresh_example : IsFresh found
detect-IsFresh_example = detect-IsFresh host "x86_64" noble found found_noble

-- A host on which every program prints an entry of getent.
abbrev getent_host : Host
getent_host = record host {
  spawn = λ c t. (
    ok (record {
      success = true;
      code = "0";
      stdout = entry "ada" "x" 1000 "1000::/home/ada";
      stderr = "";
    }),
    t,
  );
}

lookup_uid-entry_example : (lookup_uid getent_host "User" "ada" empty).0 ≡ ok 1000
lookup_uid-entry_example =
    lookup_uid-entry getent_host "User" "ada" empty "ada" "x" "1000::/home/ada" 1000
      (refl, (refl, (refl, tt))) (refl, tt) (omega arith) _ refl refl refl

lookup_gid-entry_example : (lookup_gid getent_host "User" "ada" empty).0 ≡ ok 1000
lookup_gid-entry_example =
    lookup_gid-entry getent_host "User" "ada" empty "ada" "x" "1000::/home/ada" 1000
      (refl, (refl, (refl, tt))) (refl, tt) (omega arith) _ refl refl refl
