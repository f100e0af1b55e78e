-- ===== src/Bundles.antt =====
-- src/bundles.rs: the plan that is assembled, and the memo of the bundles that are in it.
-- `env` and `config` are never written, so they stand in a `Setting` of their own, with what the
-- program reads from the disk while it assembles the plan.
pub mod ApcUps
pub mod Apparmor
pub mod Apt
pub mod CaCert
pub mod Chrony
pub mod Common
pub mod CommonDevserver
pub mod CommonTools
pub mod CommonTweaks
pub mod Devserver
pub mod Docker
pub mod Et
pub mod Fits
pub mod Registers
pub mod Memo
pub mod Flatpak
pub mod Gpg
pub mod Iptables
pub mod Libvirtd
pub mod Locales
pub mod Lvm
pub mod Nix
pub mod NodeExporter
pub mod Nvidia
pub mod Nvim
pub mod Pip
pub mod SmartctlExporter
pub mod Snapd
pub mod Systemd
pub mod Tailscale
pub mod Tuxedo
pub mod Tzdata
pub mod UbuntuDevserver
pub mod Users
pub mod Virtualbox
pub mod Yubico
use ansible_playbooks.Common.{ℕ, String, Option, none, some, List, [], ◌∷◌, if◌then◌else◌, str_eq}
use ansible_playbooks.Env.{Env}
use ansible_playbooks.Resource.Ids.{ResourceId}
use ansible_playbooks.Plan
use ansible_playbooks.Plan.{Plan}
use ansible_playbooks.Config.{Config}
use ansible_playbooks.Backends.Registry.{Resource}

-- `profile_d` holds the names in /etc/profile.d that are valid Unicode, in the order of the
-- directory, if it can be read.
pub record Setting : Type 0 where
  pub env : Env
  pub config : Config
  pub profile_d : Option (List String)

pub record Context : Type 0 where
  pub plan : Plan Resource
  pub cache : List (String × ResourceId)

abbrev pub Build : Type 0 → Type 0
Build A = Context → A × Context

unfoldable pub pure : {A : Type 0} → A → Build A
pure a c = (a, c)

infixl 5 ◌>>=◌
unfoldable pub ◌>>=◌ : {A B : Type 0} → Build A → (A → Build B) → Build B
(m >>= f) c = let (a, c') = m c in f a c'

-- `ctx.plan.add(...)`
unfoldable pub add : Resource → Build ResourceId
unfolding Plan.add
add r c = let (plan, id) = Plan.add c.plan r in (id, record c { plan = plan })

-- `.iter().map(...).collect()`, and a loop that pushes what each round adds.
unfoldable pub each : {A B : Type 0} → (A → Build B) → List A → Build (List B)
unfolding pure ◌>>=◌
each f [] = pure []
each f (x ∷ xs) = f x >>= λ id. each f xs >>= λ ids. pure (id ∷ ids)

-- `HashMap::get` and `HashMap::insert`
unfoldable pub find : String → List (String × ResourceId) → Option ResourceId
find key [] = none
find key ((k, id) ∷ more) = if str_eq k key then some id else find key more

unfoldable pub insert :
    String → ResourceId → List (String × ResourceId) → List (String × ResourceId)
insert key id [] = (key, id) ∷ []
insert key id ((k, old) ∷ more) =
    if str_eq k key then (k, id) ∷ more else (k, old) ∷ insert key id more

-- `Context::memoized`
unfoldable pub memoized : String → Build ResourceId → Build ResourceId
unfolding find insert
memoized key build c = elim (find key c.cache) [
  | some id ↦ (id, c)
  | none ↦ let (id, c') = build c in (id, record c' { cache = insert key id c'.cache })
]

-- `Context::new`, over `Plan::new`
abbrev pub new : Context
new = record { plan = []; cache = [] }
