-- ===== src/Main/Accounts.antt =====
-- The accounts that src/bundles/users.rs adds to the plan of src/main.rs.
use ansible_playbooks.Common.{ℕ, ◌≡◌, refl, String, none, List, [], ◌∷◌, ◌++◌, arith}
use ansible_playbooks.Resource.Ids.{ResourceId}
use ansible_playbooks.Plan.{len}
use ansible_playbooks.Config.{UserSpec}
use ansible_playbooks.Backends.Registry.{Resource, user}
use ansible_playbooks.Backends.Defaults.{default_user}
use ansible_playbooks.Bundles.{Setting, Context, Build, pure, ◌>>=◌, memoized, find, insert, new}
use ansible_playbooks.Bundles.Fits.{add-Fits, rounds-Fits, new-IsSound, AreIds-flatten, >>=-Fits}
use ansible_playbooks.Bundles.Fits.Apt.{apt-Fits}
use ansible_playbooks.Bundles.Fits.Users.{add_home-Fits, add_user-Fits, users-Fits}
use ansible_playbooks.Bundles.Fits.Metas.{
  common_tweaks_rest-Fits, common_tweaks-Fits, common_tools-Fits, common-Fits, devserver-Fits,
}
use ansible_playbooks.Bundles.Memo.{apt_build-KeepsMemo}
use ansible_playbooks.Bundles.Registers.{
  Has, Has-Grown, Registers, add-Registers, >>=-Has, >>=-Registers_first, each-Registers,
  gather-Fits,
}
use ansible_playbooks.Bundles.Apt
use ansible_playbooks.Bundles.CommonTweaks
use ansible_playbooks.Bundles.Common
use ansible_playbooks.Bundles.CommonDevserver
use ansible_playbooks.Bundles.Users
use ansible_playbooks.Bundles.Users.{groups_of, shell_or_bash, add_user, add_home}
use ansible_playbooks.Main.{BundleName, method, dispatch, dispatch_all, bundles_to_run}
use ansible_playbooks.Main.Granted.{HasAccount, asked, Has-HasAccount}
use ansible_playbooks.Main.Soundness.{dispatch-IsSound, dispatch_all-Grown}

-- What the bundle asks of the host.
abbrev account : String → UserSpec → Resource
account name spec = user (asked name spec default_user)

add_user-Registers :
    (name : String) (spec : UserSpec) {n : ℕ}
    → Registers (account name spec) n (add_user (name, spec))
unfolding add_user
add_user-Registers name spec =
    >>=-Registers_first
      {f = λ user_id. add_home name spec user_id spec.home >>= λ rest. pure (user_id ∷ rest)}
      (add-Fits (account name spec) tt) (add-Registers (account name spec))
      λ user_id k le lt. gather-Fits user_id (add_home-Fits name spec user_id spec.home lt)

build-Registers :
    (s : Setting) (xs ys : List (String × UserSpec)) (name : String) (spec : UserSpec) {n : ℕ}
    → s.config.users ≡ xs ++ ((name, spec) ∷ ys)
    → Registers (account name spec) n (Users.build s)
unfolding Users.build
build-Registers s xs ys name spec listed =
    >>=-Registers_first (rounds-Fits add_user s.config.users λ user k le. add_user-Fits user)
      (rw listed (
        each-Registers add_user xs ys (name, spec) (λ user k le. add_user-Fits user)
          (λ k le. add_user-Registers name spec)))
      λ rounds k le known. add-Fits _ (AreIds-flatten rounds k known)

users-Has :
    (s : Setting) (xs ys : List (String × UserSpec)) (name : String) (spec : UserSpec)
    → s.config.users ≡ xs ++ ((name, spec) ∷ ys)
    → (bundles : List BundleName)
    → Has (account name spec) (dispatch_all s (BundleName.users ∷ bundles) new)
unfolding dispatch_all dispatch method Users.users memoized find
users-Has s xs ys name spec listed bundles =
    let first = dispatch s new BundleName.users in
    let sound = dispatch-IsSound s BundleName.users new new-IsSound in
    let here =
      (build-Registers s xs ys name spec {n = 0} listed).added new new-IsSound (omega arith) in
    Has-Grown
      (record { place = here.place; node = here.node; found = here.found; same = here.same })
      (dispatch_all-Grown s bundles first sound)

-- If the bundle `users` is named first, then every user of the config has its account in the plan,
-- in the groups that the config lists, the usual ones and, as an administrator, `sudo`, with the id,
-- home, shell and password of the config, whatever is named besides.
pub users-HasAccount :
    (s : Setting) (xs ys : List (String × UserSpec)) (name : String) (spec : UserSpec)
    → s.config.users ≡ xs ++ ((name, spec) ∷ ys)
    → (bundles : List BundleName)
    → HasAccount name spec (dispatch_all s (BundleName.users ∷ bundles) new)
users-HasAccount s xs ys name spec listed bundles =
    Has-HasAccount name spec default_user _ (users-Has s xs ys name spec listed bundles)

memoized-Has :
    {r : Resource} (key : String) (build : Build ResourceId) (c : Context)
    → find key c.cache ≡ none
    → Has r (build c).1
    → Has r (memoized key build c).1
unfolding memoized
memoized-Has key build c fresh h =
    rw (fresh, memoized) (record { place = h.place; node = h.node; found = h.found; same = h.same })

module _ (s : Setting) (xs ys : List (String × UserSpec)) (name : String) (spec : UserSpec)
    (listed : s.config.users ≡ xs ++ ((name, spec) ∷ ys)) where
  abbrev with_apt : Context
  with_apt = (Apt.apt s new).1

  -- The first bundle that is built leaves no other in the memo.
  no_users_yet : find "users" with_apt.cache ≡ none
  unfolding Apt.apt memoized find insert
  no_users_yet = rw ((apt_build-KeepsMemo s).kept new) refl

  users_called-Has : Has (account name spec) (Users.users s with_apt).1
  unfolding Users.users
  users_called-Has =
      let sound = (apt-Fits s {n = 0}).sound new new-IsSound (omega arith) in
      memoized-Has "users" (Users.build s) with_apt no_users_yet
        ((build-Registers s xs ys name spec {n = 0} listed).added with_apt sound (omega arith))

  common_tweaks-Has : Has (account name spec) (CommonTweaks.common_tweaks s new).1
  unfolding CommonTweaks.common_tweaks CommonTweaks.build ◌>>=◌ find
  common_tweaks-Has =
      let fits = apt-Fits s {n = 0} in
      let sound = fits.sound new new-IsSound (omega arith) in
      let lt = fits.result new new-IsSound (omega arith) in
      memoized-Has "common_tweaks" (CommonTweaks.build s) new refl (
        >>=-Has (users-Fits s {n = len with_apt.plan}) with_apt sound (omega arith) users_called-Has
          λ users_ready k le lt₂.
            common_tweaks_rest-Fits s (Apt.apt s new).0 users_ready (omega arith) lt₂)

  common-Has : Has (account name spec) (Common.common s new).1
  unfolding Common.common Common.build find
  common-Has = memoized-Has "common" (Common.build s) new refl (
      >>=-Has (common_tweaks-Fits s {n = 0}) new new-IsSound (omega arith) common_tweaks-Has
        λ id k le lt. >>=-Fits (common_tools-Fits s) λ id₂ j more lt₂. add-Fits _ (omega arith))

  common_devserver-Has : Has (account name spec) (CommonDevserver.common_devserver s new).1
  unfolding CommonDevserver.common_devserver CommonDevserver.build find
  common_devserver-Has = memoized-Has "common_devserver" (CommonDevserver.build s) new refl (
      >>=-Has (common-Fits s {n = 0}) new new-IsSound (omega arith) common-Has
        λ id k le lt. >>=-Fits (devserver-Fits s) λ id₂ j more lt₂. add-Fits _ (omega arith))

  default-Has : Has (account name spec) (dispatch_all s (bundles_to_run []) new)
  unfolding dispatch_all dispatch method bundles_to_run
  default-Has = common_devserver-Has

  -- When no bundle is named, every user of the config has its account in the plan, in the groups
  -- that the config lists, the usual ones and, as an administrator, `sudo`, with the id, home, shell
  -- and password of the config.
  pub default-HasAccount : HasAccount name spec (dispatch_all s (bundles_to_run []) new)
  default-HasAccount = Has-HasAccount name spec default_user _ default-Has
