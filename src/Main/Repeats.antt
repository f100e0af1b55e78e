-- ===== src/Main/Repeats.antt =====
-- Bundles that src/main.rs dispatches more than once.
use ansible_playbooks.Common.{
  ◌≡◌, refl, sym, ap, ◌∙◌, String, some, List, [], ◌∷◌, ◌++◌, arith, Option-cases, inl, inr,
}
use text.Mathlib.TextEquality.{eq_iff}
use ansible_playbooks.Resource.Ids.{ResourceId}
use ansible_playbooks.Bundles.{Setting, Context, Build, find, memoized, new}
use ansible_playbooks.Bundles.Fits.{IsSound, find-insert, new-IsSound}
use ansible_playbooks.Bundles.ApcUps
use ansible_playbooks.Bundles.Apparmor
use ansible_playbooks.Bundles.Apt
use ansible_playbooks.Bundles.CaCert
use ansible_playbooks.Bundles.Chrony
use ansible_playbooks.Bundles.Common
use ansible_playbooks.Bundles.CommonDevserver
use ansible_playbooks.Bundles.CommonTools
use ansible_playbooks.Bundles.CommonTweaks
use ansible_playbooks.Bundles.Devserver
use ansible_playbooks.Bundles.Docker
use ansible_playbooks.Bundles.Et
use ansible_playbooks.Bundles.Flatpak
use ansible_playbooks.Bundles.Gpg
use ansible_playbooks.Bundles.Iptables
use ansible_playbooks.Bundles.Libvirtd
use ansible_playbooks.Bundles.Locales
use ansible_playbooks.Bundles.Lvm
use ansible_playbooks.Bundles.Nix
use ansible_playbooks.Bundles.NodeExporter
use ansible_playbooks.Bundles.Nvidia
use ansible_playbooks.Bundles.Nvim
use ansible_playbooks.Bundles.Pip
use ansible_playbooks.Bundles.SmartctlExporter
use ansible_playbooks.Bundles.Snapd
use ansible_playbooks.Bundles.Tailscale
use ansible_playbooks.Bundles.Tuxedo
use ansible_playbooks.Bundles.Tzdata
use ansible_playbooks.Bundles.UbuntuDevserver
use ansible_playbooks.Bundles.Users
use ansible_playbooks.Bundles.Virtualbox
use ansible_playbooks.Bundles.Yubico
use ansible_playbooks.Main.{BundleName, method, dispatch, dispatch_all, bundles_to_run, assemble}
use ansible_playbooks.Main.Soundness.{dispatch-IsSound, dispatch_all-IsSound, dispatch_all-Grown}

-- `m` is the memo of a build, under some key.
pub record IsMemo (m : Build ResourceId) : Type 0 where
  pub key : String
  pub build : Build ResourceId
  pub same : m ≡ memoized key build

method-IsMemo : (bundle : BundleName) (s : Setting) → IsMemo (method bundle s)
unfolding method ApcUps.apc_ups Apparmor.apparmor Apt.apt CaCert.ca_cert Chrony.chrony Common.common
    CommonDevserver.common_devserver CommonTools.common_tools CommonTweaks.common_tweaks
    Devserver.devserver Docker.docker Et.et Flatpak.flatpak Gpg.gpg Iptables.iptables
    Libvirtd.libvirtd Locales.locales Lvm.lvm Nix.nix NodeExporter.node_exporter Nvidia.nvidia
    Nvim.nvim Pip.pip SmartctlExporter.smartctl_exporter Snapd.snapd Tailscale.tailscale
    Tuxedo.tuxedo Tzdata.tzdata UbuntuDevserver.ubuntu_devserver Users.users Virtualbox.virtualbox
    Yubico.yubico
method-IsMemo BundleName.apc_ups s = record { key = "apc_ups"; build = ApcUps.build s; same = refl }
method-IsMemo BundleName.apparmor s = record {
  key = "apparmor";
  build = Apparmor.build s;
  same = refl;
}
method-IsMemo BundleName.apt s = record { key = "apt"; build = Apt.build s; same = refl }
method-IsMemo BundleName.ca_cert s = record { key = "ca_cert"; build = CaCert.build s; same = refl }
method-IsMemo BundleName.chrony s = record { key = "chrony"; build = Chrony.build s; same = refl }
method-IsMemo BundleName.common s = record { key = "common"; build = Common.build s; same = refl }
method-IsMemo BundleName.common_devserver s = record {
  key = "common_devserver";
  build = CommonDevserver.build s;
  same = refl;
}
method-IsMemo BundleName.common_tools s = record {
  key = "common_tools";
  build = CommonTools.build s;
  same = refl;
}
method-IsMemo BundleName.common_tweaks s = record {
  key = "common_tweaks";
  build = CommonTweaks.build s;
  same = refl;
}
method-IsMemo BundleName.devserver s = record {
  key = "devserver";
  build = Devserver.build s;
  same = refl;
}
method-IsMemo BundleName.docker s = record { key = "docker"; build = Docker.build s; same = refl }
method-IsMemo BundleName.et s = record { key = "et"; build = Et.build s; same = refl }
method-IsMemo BundleName.flatpak s = record {
  key = "flatpak";
  build = Flatpak.build s;
  same = refl;
}
method-IsMemo BundleName.gpg s = record { key = "gpg"; build = Gpg.build s; same = refl }
method-IsMemo BundleName.iptables s = record {
  key = "iptables";
  build = Iptables.build s;
  same = refl;
}
method-IsMemo BundleName.libvirtd s = record {
  key = "libvirtd";
  build = Libvirtd.build s;
  same = refl;
}
method-IsMemo BundleName.locales s = record {
  key = "locales";
  build = Locales.build s;
  same = refl;
}
method-IsMemo BundleName.lvm s = record { key = "lvm"; build = Lvm.build s; same = refl }
method-IsMemo BundleName.nix s = record { key = "nix"; build = Nix.build s; same = refl }
method-IsMemo BundleName.node_exporter s = record {
  key = "node_exporter";
  build = NodeExporter.build s;
  same = refl;
}
method-IsMemo BundleName.nvidia s = record { key = "nvidia"; build = Nvidia.build s; same = refl }
method-IsMemo BundleName.nvim s = record { key = "nvim"; build = Nvim.build s; same = refl }
method-IsMemo BundleName.pip s = record { key = "pip"; build = Pip.build s; same = refl }
method-IsMemo BundleName.smartctl_exporter s = record {
  key = "smartctl_exporter";
  build = SmartctlExporter.build s;
  same = refl;
}
method-IsMemo BundleName.snapd s = record { key = "snapd"; build = Snapd.build s; same = refl }
method-IsMemo BundleName.tailscale s = record {
  key = "tailscale";
  build = Tailscale.build s;
  same = refl;
}
method-IsMemo BundleName.tuxedo s = record { key = "tuxedo"; build = Tuxedo.build s; same = refl }
method-IsMemo BundleName.tzdata s = record { key = "tzdata"; build = Tzdata.build s; same = refl }
method-IsMemo BundleName.ubuntu_devserver s = record {
  key = "ubuntu_devserver";
  build = UbuntuDevserver.build s;
  same = refl;
}
method-IsMemo BundleName.users s = record { key = "users"; build = Users.build s; same = refl }
method-IsMemo BundleName.virtualbox s = record {
  key = "virtualbox";
  build = Virtualbox.build s;
  same = refl;
}
method-IsMemo BundleName.yubico s = record { key = "yubico"; build = Yubico.build s; same = refl }

memoized-known :
    (key : String) (build : Build ResourceId) (c : Context) (id : ResourceId)
    → find key c.cache ≡ some id
    → memoized key build c ≡ (id, c)
unfolding memoized
memoized-known key build c id e = rw (e, memoized) refl

memoized-held :
    (key : String) (build : Build ResourceId) (c : Context)
    → find key (memoized key build c).1.cache ≡ some (memoized key build c).0
unfolding memoized
memoized-held key build c = elim (Option-cases (find key c.cache)) [
  | inl fresh ↦
      rw (fresh, memoized)
        (ground (arith, find-insert key key (build c).0 (build c).1.cache, eq_iff key key))
  | inr (id, old) ↦ rw (old, memoized) old
]

IsMemo-held :
    {m : Build ResourceId} (memo : IsMemo m) (c : Context)
    → find memo.key (m c).1.cache ≡ some (m c).0
IsMemo-held memo c = rw memo.same (memoized-held memo.key memo.build c)

IsMemo-known :
    {m : Build ResourceId} (memo : IsMemo m) (c : Context) (id : ResourceId)
    → find memo.key c.cache ≡ some id
    → m c ≡ (id, c)
IsMemo-known memo c id e = rw memo.same (memoized-known memo.key memo.build c id e)

-- Dispatching a bundle again does nothing, and gives the id that it gave before, whatever bundles
-- were dispatched since, if the context was sound before: its nodes carry their places as ids and
-- depend on earlier nodes, and its memo holds ids of nodes.
pub method-again :
    (s : Setting) (bundle : BundleName) (bundles : List BundleName) (c : Context)
    → IsSound c
    → let later = dispatch_all s bundles (dispatch s c bundle) in
      method bundle s later ≡ ((method bundle s c).0, later)
unfolding dispatch
method-again s bundle bundles c sound =
    let memo = method-IsMemo bundle s in
    let c' = dispatch s c bundle in
    let grown = dispatch_all-Grown s bundles c' (dispatch-IsSound s bundle c sound) in
    IsMemo-known memo (dispatch_all s bundles c') (method bundle s c).0
      (grown.memo memo.key (method bundle s c).0 (IsMemo-held memo c))

dispatch_all-append :
    (s : Setting) (xs ys : List BundleName) (c : Context)
    → dispatch_all s (xs ++ ys) c ≡ dispatch_all s ys (dispatch_all s xs c)
unfolding dispatch_all
dispatch_all-append s [] ys c = refl
dispatch_all-append s (x ∷ xs) ys c = dispatch_all-append s xs ys (dispatch s c x)

bundles_to_run-named :
    (xs ys : List BundleName) (bundle : BundleName)
    → bundles_to_run (xs ++ (bundle ∷ ys)) ≡ xs ++ (bundle ∷ ys)
unfolding bundles_to_run
bundles_to_run-named [] ys bundle = refl
bundles_to_run-named (x ∷ xs) ys bundle = refl

dispatch_all-again :
    (s : Setting) (ys : List BundleName) (bundle : BundleName) (c : Context)
    → IsSound c
    → dispatch_all s ((bundle ∷ ys) ++ (bundle ∷ [])) c ≡ dispatch_all s (bundle ∷ ys) c
unfolding dispatch_all dispatch
dispatch_all-again s ys bundle c sound =
    dispatch_all-append s ys (bundle ∷ []) (dispatch s c bundle)
    ∙ ap (λ (r : ResourceId × Context). r.1) (method-again s bundle ys c sound)

-- Naming a bundle again, behind any others, adds nothing to the plan.
pub assemble-again :
    (s : Setting) (xs ys : List BundleName) (bundle : BundleName)
    → assemble s (xs ++ ((bundle ∷ ys) ++ (bundle ∷ []))) ≡ assemble s (xs ++ (bundle ∷ ys))
unfolding assemble
assemble-again s xs ys bundle =
    let more = (bundle ∷ ys) ++ (bundle ∷ []) in
    let c = dispatch_all s xs new in
    let sound = dispatch_all-IsSound s xs new new-IsSound in
    ap (λ (d : Context). d.plan)
      (ap (λ bs. dispatch_all s bs new) (bundles_to_run-named xs (ys ++ (bundle ∷ [])) bundle)
        ∙ dispatch_all-append s xs more new
        ∙ dispatch_all-again s ys bundle c sound
        ∙ sym (dispatch_all-append s xs (bundle ∷ ys) new)
        ∙ sym (ap (λ bs. dispatch_all s bs new) (bundles_to_run-named xs ys bundle)))
