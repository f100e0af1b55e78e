-- ===== src/Bundles/Memo.antt =====
-- Builds in src/bundles/ that call no other bundle leave the memo of the `Context` alone.
use ansible_playbooks.Common.{◌≡◌, refl, ◌∙◌, Bool, true, false, List, [], ◌∷◌, if◌then◌else◌}
use ansible_playbooks.Config.{AptRepo}
use ansible_playbooks.Backends.Registry.{Resource}
use ansible_playbooks.Bundles.{Setting, Context, Build, pure, ◌>>=◌, add, each}
use ansible_playbooks.Bundles.Apt

-- The memo is the same behind the action.
pub record KeepsMemo {A : Type 0} (m : Build A) : Type 0 where
  pub kept : (c : Context) → (m c).1.cache ≡ c.cache

pure-KeepsMemo : {A : Type 0} (a : A) → KeepsMemo (pure a)
unfolding pure
pure-KeepsMemo a = record { kept = λ c. refl }

add-KeepsMemo : (r : Resource) → KeepsMemo (add r)
unfolding add
add-KeepsMemo r = record { kept = λ c. refl }

>>=-KeepsMemo :
    {A B : Type 0} {m : Build A} {f : A → Build B}
    → KeepsMemo m
    → ((a : A) → KeepsMemo (f a))
    → KeepsMemo (m >>= f)
unfolding ◌>>=◌
>>=-KeepsMemo {m} h k = record { kept = λ c. (k (m c).0).kept (m c).1 ∙ h.kept c }

each-KeepsMemo :
    {A B : Type 0} (f : A → Build B) (xs : List A)
    → ((x : A) → KeepsMemo (f x))
    → KeepsMemo (each f xs)
unfolding each
each-KeepsMemo f [] h = pure-KeepsMemo []
each-KeepsMemo f (x ∷ xs) h =
    >>=-KeepsMemo (h x) λ id. >>=-KeepsMemo (each-KeepsMemo f xs h) λ ids. pure-KeepsMemo (id ∷ ids)

if-KeepsMemo :
    {A : Type 0} (b : Bool) {m m' : Build A}
    → KeepsMemo m
    → KeepsMemo m'
    → KeepsMemo (if b then m else m')
if-KeepsMemo true h h' = h
if-KeepsMemo false h h' = h'

confd_files-KeepsMemo : (s : Setting) → KeepsMemo (Apt.confd_files s)
unfolding Apt.confd_files
confd_files-KeepsMemo s = >>=-KeepsMemo (add-KeepsMemo _) λ recommends.
    >>=-KeepsMemo (add-KeepsMemo _) λ allowunauth. >>=-KeepsMemo (add-KeepsMemo _) λ timeout.
      >>=-KeepsMemo (add-KeepsMemo _) λ periodic.
        >>=-KeepsMemo (add-KeepsMemo _)
          λ release. >>=-KeepsMemo (add-KeepsMemo _) λ debug. pure-KeepsMemo _

add_repo-KeepsMemo : (s : Setting) (repo : AptRepo) → KeepsMemo (Apt.add_repo s repo)
unfolding Apt.add_repo
add_repo-KeepsMemo s repo =
    >>=-KeepsMemo (add-KeepsMemo _) λ pin. >>=-KeepsMemo (add-KeepsMemo _) λ list. pure-KeepsMemo _

ppa_key-KeepsMemo : (enabled : Bool) → KeepsMemo (Apt.ppa_key enabled)
unfolding Apt.ppa_key
ppa_key-KeepsMemo enabled =
    if-KeepsMemo enabled (>>=-KeepsMemo (add-KeepsMemo _) λ key. pure-KeepsMemo _)
      (pure-KeepsMemo [])

pub apt_build-KeepsMemo : (s : Setting) → KeepsMemo (Apt.build s)
unfolding Apt.build
apt_build-KeepsMemo s = >>=-KeepsMemo (confd_files-KeepsMemo s) λ confd.
    >>=-KeepsMemo (each-KeepsMemo _ _ λ path. add-KeepsMemo _) λ cleanup.
      >>=-KeepsMemo (add-KeepsMemo _) λ sources_list. >>=-KeepsMemo (add-KeepsMemo _) λ ppa_pin.
        >>=-KeepsMemo (each-KeepsMemo _ _ λ repo. add_repo-KeepsMemo s repo) λ rounds.
          >>=-KeepsMemo (ppa_key-KeepsMemo _) λ key.
            >>=-KeepsMemo (each-KeepsMemo _ _ λ name. add-KeepsMemo _) λ bootstrap. add-KeepsMemo _
