-- ===== src/Executor/Run/Registered.antt =====
-- The batchers that the tasks of a level in src/executor.rs use.
use ansible_playbooks.Common.{
  ℕ, zero, suc, ◌≡◌, refl, Option, none, some, List, [], ◌∷◌, All, All-append,
}
use ansible_playbooks.Resource.{Trait, Batcher}
use ansible_playbooks.Resource.Ids.{BatchFamily}
use ansible_playbooks.Plan.{Node}
use ansible_playbooks.Executor.Run.{
  insert_at, permute, Groups, Task, batch, single, batcher_of, group_tasks, tasks,
}

module _ {A : Type 0} (P : A → Type 0) where
  insert_at-All : (p : ℕ) (x : A) (xs : List A) → P x → All P xs → All P (insert_at p x xs)
  insert_at-All zero x xs h hs = (h, hs)
  insert_at-All (suc p) x [] h hs = (h, tt)
  insert_at-All (suc p) x (y ∷ ys) h hs = (hs.0, insert_at-All p x ys h hs.1)

  pub permute-All : (picks : ℕ → ℕ) (xs : List A) → All P xs → All P (permute picks xs)
  permute-All picks [] h = tt
  permute-All picks (x ∷ xs) h =
      insert_at-All (picks 0) x _ h.0 (permute-All (λ k. picks (suc k)) xs h.1)

module _ {S : Type 0} (T : Trait S) (batchers : BatchFamily → Option (Batcher S T.Resource)) where
  -- The task's batcher is a registered one.
  abbrev pub IsRegistered : Task T batchers → Type 0
  IsRegistered (batch b nodes) = (family : BatchFamily) × (batchers family ≡ some b)
  IsRegistered (single node) = Unit {0}

  group_tasks-IsRegistered :
      (family : Option BatchFamily) (members : List (Node T.Resource))
      (b : Option (Batcher S T.Resource))
      → batcher_of T batchers family ≡ b
      → All IsRegistered (group_tasks T batchers b members)
  group_tasks-IsRegistered none members (some b) e = cc
  group_tasks-IsRegistered (some family) members (some b) e = ((family, e), tt)
  group_tasks-IsRegistered family [] none e = tt
  group_tasks-IsRegistered family (node ∷ members) none e =
      (tt, group_tasks-IsRegistered family members none e)

  pub tasks-IsRegistered : (groups : Groups T batchers) → All IsRegistered (tasks T batchers groups)
  unfolding tasks
  tasks-IsRegistered [] = tt
  tasks-IsRegistered ((family, members) ∷ groups) =
      All-append IsRegistered (group_tasks T batchers (batcher_of T batchers family) members)
        (tasks T batchers groups) (group_tasks-IsRegistered family members _ refl)
        (tasks-IsRegistered groups)

  pub permute-IsRegistered :
      (picks : ℕ → ℕ) (ts : List (Task T batchers))
      → All IsRegistered ts
      → All IsRegistered (permute picks ts)
  permute-IsRegistered picks ts h = permute-All IsRegistered picks ts h
