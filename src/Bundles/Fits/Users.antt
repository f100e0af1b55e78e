-- ===== src/Bundles/Fits/Users.antt =====
-- `Fits` for src/bundles/users.rs.
use ansible_playbooks.Common.{ℕ, ◌<◌, arith, String, Option, none, some, [], ◌∷◌}
use ansible_playbooks.Resource.Ids.{ResourceId}
use ansible_playbooks.Host.{FilePath}
use ansible_playbooks.Config.{UserSpec}
use ansible_playbooks.Bundles.{Setting}
use ansible_playbooks.Bundles.Fits.{
  Fits, >>=-Fits, add-Fits, rounds-Fits, pure-Fits, memoized-Fits, AreIds, AreIds-append,
  AreIds-mono, AreIds-flatten, if-Fits,
}
use ansible_playbooks.Bundles.Users

add_mount-Fits :
    (name : String) (spec : UserSpec) (user_id : ResourceId) {n : ℕ}
    → user_id < n
    → Fits AreIds n (Users.add_mount name spec user_id)
unfolding Users.add_mount
add_mount-Fits name spec user_id lt = >>=-Fits (add-Fits _ (omega arith)) λ unit_id k1 le1 in1.
    >>=-Fits (add-Fits _ (omega arith)) λ svc_id k2 le2 in2. pure-Fits _ λ k le. omega arith

pub add_home-Fits :
    (name : String) (spec : UserSpec) (user_id : ResourceId) (home : Option FilePath) {n : ℕ}
    → user_id < n
    → Fits AreIds n (Users.add_home name spec user_id home)
unfolding Users.add_home
add_home-Fits name spec user_id none lt = pure-Fits [] λ k le. tt
add_home-Fits name spec user_id (some home) lt =
    >>=-Fits (add-Fits _ (omega arith)) λ local k1 le1 in1.
      >>=-Fits (add-Fits _ (omega arith)) λ config k2 le2 in2.
        >>=-Fits (add-Fits _ (omega arith)) λ private k3 le3 in3.
          >>=-Fits
            (if-Fits _ (pure-Fits [] λ k le. tt) (add_mount-Fits name spec user_id (omega arith)))
            λ mount k4 le4 in4. pure-Fits _ λ k le.
              AreIds-append (local ∷ config ∷ private ∷ []) mount k (omega arith)
                (AreIds-mono mount le in4)

pub add_user-Fits : (user : String × UserSpec) {n : ℕ} → Fits AreIds n (Users.add_user user)
unfolding Users.add_user
add_user-Fits (name, spec) = >>=-Fits (add-Fits _ tt) λ user_id k1 le1 in1.
    >>=-Fits (add_home-Fits name spec user_id spec.home in1) λ rest k2 le2 in2.
      pure-Fits _
        λ k le. AreIds-append (user_id ∷ []) rest k (omega arith) (AreIds-mono rest le in2)

users_build-Fits : (s : Setting) {n : ℕ} → Fits ◌<◌ n (Users.build s)
unfolding Users.build
users_build-Fits s =
    >>=-Fits (rounds-Fits Users.add_user s.config.users λ user k le. add_user-Fits user)
      λ rounds k1 le1 in1. add-Fits _ (AreIds-flatten rounds k1 in1)

pub users-Fits : (s : Setting) {n : ℕ} → Fits ◌<◌ n (Users.users s)
unfolding Users.users
users-Fits s = memoized-Fits "users" (Users.build s) (users_build-Fits s)
