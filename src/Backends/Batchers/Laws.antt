-- ===== src/Backends/Batchers/Laws.antt =====
-- What a batch does, beside what the same resources do one at a time.
use ansible_playbooks.Common.{
  ◌≡◌, subst, String, true, inl, inr, some, List, [], ◌∷◌, arith, length, length-map, if◌then◌else◌,
}
use ansible_playbooks.Common.Results.{Result, ok, Keeps, Result-cases}
use ansible_playbooks.Env.{Env, is_dry_run}
use ansible_playbooks.Error.{BackendError}
use ansible_playbooks.Resource.{Batcher, AnswersAll}
use ansible_playbooks.Resource.Ids.{BatchFamily, changed_yes, changed_no}
use ansible_playbooks.Host.{Host, IsReadOnly}
use ansible_playbooks.Backends.User.{contains_name}
use ansible_playbooks.Backends.AptPackage.{read_installed_packages}
use ansible_playbooks.Backends.Registry.{Resource}
use ansible_playbooks.Backends.DryRun.{converge_one-Keeps, read_installed-Keeps}
use ansible_playbooks.Backends.Batchers.{
  as_package, as_absent_package, collect, converge_packages, converge_absent_packages, batchers,
  package_batcher, absent_package_batcher,
}
use ansible_playbooks.Executor.Run.DryRun.{IsDry}
use ansible_playbooks.Backends.Registry.{backends}

length-collect :
    (downcast : Resource → Result BackendError String) (rs : List Resource) (names : List String)
    → collect downcast rs ≡ ok names
    → length names ≡ length rs
unfolding collect
length-collect downcast [] names e = ground arith
length-collect downcast (r ∷ rs) names e = elim (Result-cases (downcast r)) [
  | inl (name, found) ↦ elim (Result-cases (collect downcast rs)) [
    | inl (rest, more) ↦ ground (arith, found, more, length-collect downcast rs rest)
    | inr (x, failed) ↦ absurd (ground (arith, found, failed))
  ]
  | inr (x, failed) ↦ absurd (ground (arith, failed))
]

module _ (H : Host) where
  package_batcher-AnswersAll : AnswersAll (package_batcher H)
  unfolding converge_packages
  package_batcher-AnswersAll rs env s changes e = elim (Result-cases (collect as_package rs)) [
    | inl (names, found) ↦ elim (Result-cases (read_installed_packages H s).0) [
      | inl (installed, listed) ↦ ground (
        arith,
        found,
        listed,
        length-collect as_package rs names,
        length-map
            (λ (name : String). if contains_name installed name then changed_no else changed_yes)
            names,
      )
      | inr (x, failed) ↦ absurd (ground (arith, found, failed))
    ]
    | inr (x, failed) ↦ absurd (ground (arith, failed))
  ]

  absent_package_batcher-AnswersAll : AnswersAll (absent_package_batcher H)
  unfolding converge_absent_packages
  absent_package_batcher-AnswersAll rs env s changes e =
      elim (Result-cases (collect as_absent_package rs)) [
        | inl (names, found) ↦ elim (Result-cases (read_installed_packages H s).0) [
          | inl (installed, listed) ↦ ground (
            arith,
            found,
            listed,
            length-collect as_absent_package rs names,
            length-map
                (λ (name : String).
                  if contains_name installed name then changed_yes else changed_no)
                names,
          )
          | inr (x, failed) ↦ absurd (ground (arith, found, failed))
        ]
        | inr (x, failed) ↦ absurd (ground (arith, failed))
      ]

  -- A registered batcher that succeeds answers for each of its resources, so the length check of
  -- `run_batched` never fails.
  pub batchers-AnswersAll :
      (family : BatchFamily) (b : Batcher H.State Resource)
      → batchers H family ≡ some b
      → AnswersAll b
  batchers-AnswersAll BatchFamily.apt_package b e =
      let same : package_batcher H ≡ b = cc in
      subst (λ c. AnswersAll c) same package_batcher-AnswersAll
  batchers-AnswersAll BatchFamily.absent_apt_package b e =
      let same : absent_package_batcher H ≡ b = cc in
      subst (λ c. AnswersAll c) same absent_package_batcher-AnswersAll
  batchers-AnswersAll BatchFamily.apt_repo b e = cc
  batchers-AnswersAll BatchFamily.systemctl_enable b e = cc
  batchers-AnswersAll BatchFamily.sysctl b e = cc
  batchers-AnswersAll BatchFamily.kernel_module b e = cc

  module _ (quiet : IsReadOnly H) where
    converge_packages-Keeps :
        (rs : List Resource) (env : Env)
        → is_dry_run env ≡ true
        → Keeps (converge_packages H rs env)
    unfolding converge_packages
    converge_packages-Keeps rs env h s = ground (arith, read_installed-Keeps H quiet s)

    converge_absent_packages-Keeps :
        (rs : List Resource) (env : Env)
        → is_dry_run env ≡ true
        → Keeps (converge_absent_packages H rs env)
    unfolding converge_absent_packages
    converge_absent_packages-Keeps rs env h s = ground (arith, read_installed-Keeps H quiet s)

    batch-Keeps :
        (family : BatchFamily) (b : Batcher H.State Resource)
        → batchers H family ≡ some b
        → (rs : List Resource) (env : Env) → is_dry_run env ≡ true
        → Keeps (b.converge_batch rs env)
    batch-Keeps BatchFamily.apt_package b e rs env h s =
        ground (arith, converge_packages-Keeps rs env h s)
    batch-Keeps BatchFamily.absent_apt_package b e rs env h s =
        ground (arith, converge_absent_packages-Keeps rs env h s)
    batch-Keeps BatchFamily.apt_repo b e rs env h s = cc
    batch-Keeps BatchFamily.systemctl_enable b e rs env h s = cc
    batch-Keeps BatchFamily.sysctl b e rs env h s = cc
    batch-Keeps BatchFamily.kernel_module b e rs env h s = cc

    pub backends-IsDry : IsDry (backends H) (batchers H)
    backends-IsDry = record { one = converge_one-Keeps H quiet; many = batch-Keeps }
