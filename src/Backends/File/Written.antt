-- ===== src/Backends/File/Written.antt =====
-- What a file looks like behind the write path of src/backends/file.rs.
use ansible_playbooks.Common.{
  ℕ, ◌≡◌, refl, sym, subst, ◌∙◌, String, Bool, true, Option, none, some, ◌<◌, ◌^◌, ◌&&◌, inl, inr,
  arith,
}
use text.Mathlib.TextPositions.{eq_refl}
use ansible_playbooks.Common.Results.{Result, ok, Action, Result-cases, ◌>>◌, >>=-eq-ok}
use ansible_playbooks.Error.{BackendError}
use ansible_playbooks.Resource.Ids.{changed_yes}
use ansible_playbooks.Host.{FilePath, Metadata, Host, IoError, attempt}
use ansible_playbooks.Backends.Fs.{sibling_temp, permission_bits, write_full, set_mode, set_owner}
use ansible_playbooks.Backends.Views.{View, view, present, or_old, IsFileSystem}
use ansible_playbooks.Backends.File.{
  File, content_matches, mode_matches, none_or_eq, ownership_matches, fix_in_place, replace,
}

pub attempt-eq-ok :
    {S : Type 0} (backend message : String) (op : S → Result IoError (Unit {0}) × S) (s s' : S)
    → attempt backend message op s ≡ (ok tt, s')
    → ((op s).0 ≡ ok tt) × ((op s).1 ≡ s')
attempt-eq-ok backend message op s s' e = elim (Result-cases (op s).0) [
  | inl (u, done) ↦ (done, ground arith)
  | inr (x, failed) ↦ absurd (ground (arith, failed))
]

-- The first step of a chain that succeeds has succeeded, and the rest runs behind it.
pub attempt-then :
    {S A : Type 0} (backend message : String) (op : S → Result IoError (Unit {0}) × S)
    (rest : Action S BackendError A) (s s' : S) {a : A}
    → (attempt backend message op >> rest) s ≡ (ok a, s')
    → ((op s).0 ≡ ok tt) × (rest (op s).1 ≡ (ok a, s'))
attempt-then backend message op rest s s' e = elim (Result-cases (op s).0) [
  | inl (u, done) ↦ (done, ground (arith, done, e))
  | inr (x, failed) ↦ absurd (ground (arith, failed, e))
]

pub then-eq-ok :
    {S E A : Type 0} (m : Action S E (Unit {0})) (rest : Action S E A) (s s' : S) {a : A}
    → (m >> rest) s ≡ (ok a, s')
    → (m s ≡ (ok tt, (m s).1)) × (rest (m s).1 ≡ (ok a, s'))
then-eq-ok m rest s s' e =
    let (u, done, later) = >>=-eq-ok m (λ _. rest) s s' e in (ground (arith, done), later)

-- The file shows what the resource wants, its owner and group looked up to `uid` and `gid`.
abbrev pub matches_view : File → Option ℕ → Option ℕ → View → Bool
matches_view f uid gid v =
    content_matches v.text f.content
    && mode_matches f.mode v.meta
    && ownership_matches v.meta uid gid

-- A mode with neither the set-user-id nor the set-group-id bit.
abbrev pub IsPlainMode : Option ℕ → Type 0
IsPlainMode none = Unit {0}
IsPlainMode (some mode) = permission_bits mode < 2 ^ 10

settled_mode :
    (mode : Option ℕ) (old kept : ℕ)
    → IsPlainMode mode
    → (permission_bits (or_old mode old) < 2 ^ 10
        → permission_bits kept ≡ permission_bits (or_old mode old))
    → (m : Metadata) → m.mode ≡ kept
    → mode_matches mode (some m) ≡ true
settled_mode none old kept plain same m e = refl
settled_mode (some mode) old kept plain same m e = ground (arith, same plain)

settled_owner : (want : Option ℕ) (old : ℕ) → none_or_eq want (or_old want old) ≡ true
settled_owner none old = refl
settled_owner (some n) old = ground arith

module _ (H : Host) (fs : IsFileSystem H) where
  set_mode-view :
      (backend what : String) (p : FilePath) (mode : Option ℕ) (text : String) (m : Metadata)
      (s s' : H.State)
      → set_mode H backend what p mode s ≡ (ok tt, s')
      → view H p s ≡ present text m
      → view H p s' ≡ present text (record m { mode = or_old mode m.mode })
  unfolding set_mode
  set_mode-view backend what p none text m s s' e shown =
      let same : s ≡ s' = ground arith in rw same at shown
  set_mode-view backend what p (some mode) text m s s' e shown =
      let (done, same) = attempt-eq-ok backend _ (H.set_permissions p mode) s s' e in
      rw same at (fs.set_permissions p mode text m s done shown)

  set_owner-view :
      (backend : String) (p : FilePath) (uid gid : Option ℕ) (text : String) (m : Metadata)
      (s s' : H.State)
      → set_owner H backend p uid gid s ≡ (ok tt, s')
      → view H p s ≡ present text m
      → (kept : ℕ) × (view H p s'
          ≡ present text (record m { mode = kept; uid = or_old uid m.uid; gid = or_old gid m.gid }))
        × (permission_bits m.mode < 2 ^ 10 → permission_bits kept ≡ permission_bits m.mode)
  unfolding set_owner
  set_owner-view backend p none none text m s s' e shown =
      let same : s ≡ s' = ground arith in (m.mode, rw same at shown, λ _. refl)
  set_owner-view backend p (some u) gid text m s s' e shown =
      let (done, same) = attempt-eq-ok backend _ (H.chown p (some u) gid) s s' e in
      rw same at (fs.chown p (some u) gid text m s done shown)
  set_owner-view backend p none (some g) text m s s' e shown =
      let (done, same) = attempt-eq-ok backend _ (H.chown p none (some g)) s s' e in
      rw same at (fs.chown p none (some g) text m s done shown)

  write_full-view :
      (backend : String) (p : FilePath) (text : String) (s s' : H.State)
      → write_full H backend p (H.as_bytes text) s ≡ (ok tt, s')
      → (m : Metadata) × (view H p s' ≡ present text m)
  unfolding write_full
  write_full-view backend p text s s' e =
      let s₁ = (H.create p s).1 in
      let s₂ = (H.write_all p (H.as_bytes text) s₁).1 in
      let (create_ok, e₁) = attempt-then backend _ (H.create p) _ s s' e in
      let (write_ok, e₂) = attempt-then backend _ (H.write_all p (H.as_bytes text)) _ s₁ s' e₁ in
      let (flush_ok, same) = attempt-eq-ok backend _ (H.flush p) s₂ s' e₂ in
      let (m, empty) = fs.create p s create_ok in
      (m, rw same at (fs.flush p s₂ flush_ok ∙ fs.write_all p text m s₁ write_ok empty))

  -- After `chmod` and `chown` of a file with the right text, everything matches.
  settled :
      (f : File) (what : String) (p : FilePath) (uid gid : Option ℕ) (m : Metadata)
      (s₁ s₂ s₃ : H.State)
      → IsPlainMode f.mode
      → view H p s₁ ≡ present f.content m
      → set_mode H "file" what p f.mode s₁ ≡ (ok tt, s₂)
      → set_owner H "file" p uid gid s₂ ≡ (ok tt, s₃)
      → matches_view f uid gid (view H p s₃) ≡ true
  settled f what p uid gid m s₁ s₂ s₃ plain shown chmod chown =
      let moded = set_mode-view "file" what p f.mode f.content m s₁ s₂ chmod shown in
      let (kept, final, same) =
        set_owner-view "file" p uid gid f.content (record m { mode = or_old f.mode m.mode }) s₂ s₃
          chown moded in
      subst (λ v. matches_view f uid gid v ≡ true) (sym final)
        (ground (
          arith,
          eq_refl f.content,
          settled_owner uid m.uid,
          settled_owner gid m.gid,
          settled_mode f.mode m.mode kept plain same
              (record {
                is_dir = m.is_dir;
                mode = kept;
                uid = or_old uid m.uid;
                gid = or_old gid m.gid;
              })
              refl,
        ))

  pub replace-matches :
      (f : File) (uid gid : Option ℕ) (s s' : H.State)
      → IsPlainMode f.mode
      → replace H f uid gid s ≡ (ok changed_yes, s')
      → matches_view f uid gid (view H f.path s') ≡ true
  unfolding replace
  replace-matches f uid gid s s' plain e =
      let tmp : FilePath = sibling_temp f.path in
      let what : String = "set permissions on" in
      let s₁ = (write_full H "file" tmp (H.as_bytes f.content) s).1 in
      let s₂ = (set_mode H "file" what tmp f.mode s₁).1 in
      let s₃ = (set_owner H "file" tmp uid gid s₂).1 in
      let (wrote, e₁) = then-eq-ok (write_full H "file" tmp (H.as_bytes f.content)) _ s s' e in
      let (moded, e₂) = then-eq-ok (set_mode H "file" what tmp f.mode) _ s₁ s' e₁ in
      let (owned, e₃) = then-eq-ok (set_owner H "file" tmp uid gid) _ s₂ s' e₂ in
      let (moved, e₄) = attempt-then "file" _ (H.rename tmp f.path) _ s₃ s' e₃ in
      let (m, shown) = write_full-view "file" tmp f.content s s₁ wrote in
      let same : (H.rename tmp f.path s₃).1 ≡ s' = ground arith in
      let there : view H f.path s' ≡ view H tmp s₃ = rw same at (fs.rename tmp f.path s₃ moved) in
      subst (λ v. matches_view f uid gid v ≡ true) (sym there)
        (settled f what tmp uid gid m s₁ s₂ s₃ plain shown moded owned)

  pub fix_in_place-matches :
      (f : File) (uid gid : Option ℕ) (m : Metadata) (s s' : H.State)
      → IsPlainMode f.mode
      → view H f.path s ≡ present f.content m
      → fix_in_place H f uid gid s ≡ (ok changed_yes, s')
      → matches_view f uid gid (view H f.path s') ≡ true
  unfolding fix_in_place
  fix_in_place-matches f uid gid m s s' plain shown e =
      let what : String = "set permissions on" in
      let s₁ = (set_mode H "file" what f.path f.mode s).1 in
      let s₂ = (set_owner H "file" f.path uid gid s₁).1 in
      let (moded, e₁) = then-eq-ok (set_mode H "file" what f.path f.mode) _ s s' e in
      let (owned, e₂) = then-eq-ok (set_owner H "file" f.path uid gid) _ s₁ s' e₁ in
      let same : s₂ ≡ s' = ground arith in
      rw same at (settled f what f.path uid gid m s s₁ s₂ plain shown moded owned)
