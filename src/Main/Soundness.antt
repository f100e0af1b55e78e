-- ===== src/Main/Soundness.antt =====
-- `Fits` for the methods that src/main.rs dispatches, and the plans that it assembles.
use ansible_playbooks.Common.{
  ℕ, zero, suc, ◌<◌, ◌≡◌, some, List, [], ◌∷◌, arith, count, get_elem?, refl,
}
use ansible_playbooks.Common.Results.{ok}
use ansible_playbooks.Host.{Host}
use ansible_playbooks.Plan.{Node}
use ansible_playbooks.Plan.Laws.{IsNumbered}
use ansible_playbooks.Backends.Registry.{Resource, backends, deps}
use ansible_playbooks.Executor.Topo.{compute_topo_levels}
use ansible_playbooks.Executor.Topo.Nodes.{deps_at}
use ansible_playbooks.Executor.Topo.Backward.{IsBackward, compute_topo_levels-backward}
use ansible_playbooks.Bundles.{Setting, Context, new}
use ansible_playbooks.Bundles.Fits.{
  Fits, IsSound, Grown, AreIds, Grown-refl, Grown-trans, new-IsSound,
}
use ansible_playbooks.Bundles.Fits.Machines.{
  apc_ups-Fits, ca_cert-Fits, iptables-Fits, libvirtd-Fits, lvm-Fits, nvidia-Fits, tailscale-Fits,
  tuxedo-Fits, virtualbox-Fits,
}
use ansible_playbooks.Bundles.Fits.Packages.{
  apparmor-Fits, chrony-Fits, et-Fits, flatpak-Fits, gpg-Fits, locales-Fits, nix-Fits, nvim-Fits,
  pip-Fits, snapd-Fits, tzdata-Fits, yubico-Fits,
}
use ansible_playbooks.Bundles.Fits.Apt.{apt-Fits}
use ansible_playbooks.Bundles.Fits.Metas.{
  common-Fits, common_devserver-Fits, common_tools-Fits, common_tweaks-Fits, devserver-Fits,
  ubuntu_devserver-Fits,
}
use ansible_playbooks.Bundles.Fits.Containers.{
  docker-Fits, node_exporter-Fits, smartctl_exporter-Fits,
}
use ansible_playbooks.Bundles.Fits.Users.{users-Fits}
use ansible_playbooks.Main.{BundleName, method, dispatch, dispatch_all, bundles_to_run, assemble}

pub method-Fits : (bundle : BundleName) (s : Setting) {n : ℕ} → Fits ◌<◌ n (method bundle s)
unfolding method
method-Fits BundleName.apc_ups s = apc_ups-Fits s
method-Fits BundleName.apparmor s = apparmor-Fits s
method-Fits BundleName.apt s = apt-Fits s
method-Fits BundleName.ca_cert s = ca_cert-Fits s
method-Fits BundleName.chrony s = chrony-Fits s
method-Fits BundleName.common s = common-Fits s
method-Fits BundleName.common_devserver s = common_devserver-Fits s
method-Fits BundleName.common_tools s = common_tools-Fits s
method-Fits BundleName.common_tweaks s = common_tweaks-Fits s
method-Fits BundleName.devserver s = devserver-Fits s
method-Fits BundleName.docker s = docker-Fits s
method-Fits BundleName.et s = et-Fits s
method-Fits BundleName.flatpak s = flatpak-Fits s
method-Fits BundleName.gpg s = gpg-Fits s
method-Fits BundleName.iptables s = iptables-Fits s
method-Fits BundleName.libvirtd s = libvirtd-Fits s
method-Fits BundleName.locales s = locales-Fits s
method-Fits BundleName.lvm s = lvm-Fits s
method-Fits BundleName.nix s = nix-Fits s
method-Fits BundleName.node_exporter s = node_exporter-Fits s
method-Fits BundleName.nvidia s = nvidia-Fits s
method-Fits BundleName.nvim s = nvim-Fits s
method-Fits BundleName.pip s = pip-Fits s
method-Fits BundleName.smartctl_exporter s = smartctl_exporter-Fits s
method-Fits BundleName.snapd s = snapd-Fits s
method-Fits BundleName.tailscale s = tailscale-Fits s
method-Fits BundleName.tuxedo s = tuxedo-Fits s
method-Fits BundleName.tzdata s = tzdata-Fits s
method-Fits BundleName.ubuntu_devserver s = ubuntu_devserver-Fits s
method-Fits BundleName.users s = users-Fits s
method-Fits BundleName.virtualbox s = virtualbox-Fits s
method-Fits BundleName.yubico s = yubico-Fits s

pub dispatch-IsSound :
    (s : Setting) (bundle : BundleName) (c : Context) → IsSound c → IsSound (dispatch s c bundle)
unfolding dispatch
dispatch-IsSound s bundle c sound = (method-Fits bundle s {n = 0}).sound c sound (omega arith)

pub dispatch-Grown :
    (s : Setting) (bundle : BundleName) (c : Context) → IsSound c → Grown c (dispatch s c bundle)
unfolding dispatch
dispatch-Grown s bundle c sound = (method-Fits bundle s {n = 0}).grown c sound (omega arith)

pub dispatch_all-IsSound :
    (s : Setting) (bundles : List BundleName) (c : Context)
    → IsSound c
    → IsSound (dispatch_all s bundles c)
unfolding dispatch_all
dispatch_all-IsSound s [] c sound = sound
dispatch_all-IsSound s (bundle ∷ bundles) c sound =
    dispatch_all-IsSound s bundles (dispatch s c bundle) (dispatch-IsSound s bundle c sound)

-- Dispatching any bundles keeps every node that is registered, and every id that the memo holds,
-- if the nodes carry their places as ids, depend on earlier nodes, and the memo holds ids of nodes.
pub dispatch_all-Grown :
    (s : Setting) (bundles : List BundleName) (c : Context)
    → IsSound c
    → Grown c (dispatch_all s bundles c)
unfolding dispatch_all
dispatch_all-Grown s [] c sound = Grown-refl c
dispatch_all-Grown s (bundle ∷ bundles) c sound =
    Grown-trans (dispatch-Grown s bundle c sound)
      (dispatch_all-Grown s bundles (dispatch s c bundle) (dispatch-IsSound s bundle c sound))

module _ (H : Host) where
  deps_at-cases :
      (plan : List (Node Resource)) (j d : ℕ)
      → 0 < count d (deps_at (backends H) plan j)
      → (node : Node Resource) × (get_elem? plan j ≡ some node) × (0 < count d (deps node.resource))
  deps_at-cases [] j d m = absurd (omega arith)
  deps_at-cases (node ∷ plan) zero d m = (node, refl, m)
  deps_at-cases (node ∷ plan) (suc j) d m = deps_at-cases plan j d m

  AreIds-count : (ids : List ℕ) (n d : ℕ) → AreIds ids n → 0 < count d ids → d < n
  AreIds-count [] n d h m = absurd (omega arith)
  AreIds-count (id ∷ ids) n d h m = ground (arith, h.0, AreIds-count ids n d h.1)

  pub IsSound-IsBackward : (c : Context) → IsSound c → IsBackward (backends H) c.plan
  IsSound-IsBackward c sound j d m =
      let (node, found, listed) = deps_at-cases c.plan j d m in
      AreIds-count (deps node.resource) j d (sound.backward j node found) listed

  -- The plan that the program assembles is always sorted, whatever bundles are named, on whatever
  -- host and with whatever config: the executor never refuses it.
  pub assemble-sorted :
      (s : Setting) (bundles : List BundleName)
      → (levels : List (List ℕ)) × (compute_topo_levels (backends H) (assemble s bundles)
          ≡ ok levels)
  unfolding assemble
  assemble-sorted s bundles =
      let sound = dispatch_all-IsSound s (bundles_to_run bundles) new new-IsSound in
      compute_topo_levels-backward (backends H) _ (IsSound-IsBackward _ sound)

-- In the plan that the program assembles, the node at each place has the place for its id.
pub assemble-IsNumbered :
    (s : Setting) (bundles : List BundleName) → IsNumbered (assemble s bundles)
unfolding assemble
assemble-IsNumbered s bundles =
    (dispatch_all-IsSound s (bundles_to_run bundles) new new-IsSound).numbered

-- In the plan that the program assembles, whatever the bundles, each resource depends on resources
-- in front of it only.
pub assemble-bounded :
    (s : Setting) (bundles : List BundleName) (i : ℕ) (node : Node Resource)
    → get_elem? (assemble s bundles) i ≡ some node
    → AreIds (deps node.resource) i
unfolding assemble
assemble-bounded s bundles i node found =
    (dispatch_all-IsSound s (bundles_to_run bundles) new new-IsSound).backward i node found
