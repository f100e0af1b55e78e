-- ===== src/Tests/Fakes.antt =====
-- Fake resources, as tests/plan.rs has them: a convergence adds one to a counter, or fails.
use ansible_playbooks.Common.{
  ℕ, ◌+◌, String, ◌<>◌, Bool, true, false, Option, none, List, [], ◌∷◌, if◌then◌else◌,
}
use ansible_playbooks.Common.Results.{ok, err}
use ansible_playbooks.Env.{Env, apply}
use ansible_playbooks.Error.{backend_error}
use ansible_playbooks.Resource.{Trait, Batcher}
use ansible_playbooks.Resource.Ids.{ResourceId, Skip, never, in_container, changed_yes, BatchFamily}
use ansible_playbooks.Plan.{Node, Plan}

pub record Fake : Type 0 where
  pub name : String
  pub deps : List ResourceId
  pub skip_when : Skip
  pub fail : Bool

abbrev pub fake : String → List ResourceId → Fake
fake name deps = record { name = name; deps = deps; skip_when = never; fail = false }

abbrev pub fakes : Trait ℕ
fakes = record {
  Resource = Fake;
  id_hint = λ f. "fake:" <> f.name;
  deps = λ f. f.deps;
  skip_when = λ f. f.skip_when;
  batch_family = λ f. none;
  converge_one = λ f env n.
      (if f.fail then err (backend_error "fake" "synthetic failure") else ok changed_yes, n + 1);
  join_error = λ n. none;
}

abbrev pub no_batchers : BatchFamily → Option (Batcher ℕ Fake)
no_batchers family = none

abbrev pub node : ℕ → Fake → Node Fake
node id f = record { id = id; resource = f }

-- `c` needs `a` and `b`, `b` needs `a`; `c` is skipped in containers.
abbrev pub chain : Plan Fake
chain =
    node 0 (fake "a" [])
    ∷ node 1 (fake "b" (0 ∷ []))
    ∷ node 2 (record (fake "c" (0 ∷ 1 ∷ [])) { skip_when = in_container })
    ∷ []

abbrev pub loop : Plan Fake
loop = node 0 (fake "a" (1 ∷ [])) ∷ node 1 (fake "b" (0 ∷ [])) ∷ []

abbrev pub container : Env
container = record {
  is_container = true;
  run_mode = apply;
  architecture = "x86_64";
  kernel_release = "6.8.0";
  ubuntu_codename = "noble";
  is_in_virtualbox = false;
  run_state = [];
}

abbrev pub in_order : ℕ → ℕ → ℕ
in_order level place = 0
