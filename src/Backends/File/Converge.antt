-- ===== src/Backends/File/Converge.antt =====
-- What a `File` that was written looks like, and what the next run does about it.
use ansible_playbooks.Common.{
  Option-cases, ℕ, ◌≡◌, refl, subst, String, Bool, true, false, Option, inl, inr, ◌⊎◌, Bool-cases,
  arith,
}
use text.Mathlib.TextEquality.{eq_iff}
use ansible_playbooks.Common.Results.{ok, Result-cases}
use ansible_playbooks.Common.Text.{is_empty_text}
use ansible_playbooks.Env.{Env, is_dry_run}
use ansible_playbooks.Resource.Ids.{Changed, changed_yes, changed_no}
use ansible_playbooks.Host.{FilePath, Metadata, Host}
use ansible_playbooks.Backends.Fs.{
  sibling_temp, write_full, set_mode, set_owner, rename_over, ensure_parent_directory,
}
use ansible_playbooks.Backends.Views.{View, view, present, IsFileSystem}
use ansible_playbooks.Backends.Accounts.{lookup_uid, lookup_gid, lookup_named}
use ansible_playbooks.Backends.File.Written.{
  then-eq-ok, matches_view, IsPlainMode, replace-matches, fix_in_place-matches,
}
use ansible_playbooks.Backends.File.{
  File, content_matches, fix_in_place, replace, apply_drift, converge_one,
}

module _ (H : Host) (fs : IsFileSystem H) where
  -- `owner` and `group` name accounts with the numbers `uid` and `gid`.
  pub record LooksUp (f : File) (uid gid : Option ℕ) (s : H.State) : Type 0 where
    pub owner : lookup_named (lookup_uid H "file") f.owner s ≡ (ok uid, s)
    pub group : lookup_named (lookup_gid H "file") f.group s ≡ (ok gid, s)

  -- A file in the desired state is left alone.
  pub converge_one-matching :
      (f : File) (env : Env) (uid gid : Option ℕ) (s : H.State)
      → LooksUp f uid gid s
      → matches_view f uid gid (view H f.path s) ≡ true
      → converge_one H f env s ≡ (ok changed_no, s)
  unfolding converge_one
  converge_one-matching f env uid gid s looked same = ground (arith, looked.owner, looked.group)

  ensure_parent-view :
      (path p : FilePath) (text : String) (m : Metadata) (s s' : H.State)
      → ensure_parent_directory H "file" path s ≡ (ok tt, s')
      → view H p s ≡ present text m
      → view H p s' ≡ present text m
  unfolding ensure_parent_directory
  ensure_parent-view path p text m s s' e shown = elim (Option-cases (H.parent path)) [
    | inl root ↦ let same : s ≡ s' = ground (arith, root) in rw same at shown
    | inr (dir, found) ↦ elim (Bool-cases (is_empty_text dir)) [
      | inl here ↦ let same : s ≡ s' = ground (arith, found, here) in rw same at shown
      | inr deep ↦
          let made : (H.create_dir_all dir s).0 ≡ ok tt = ground (arith, found, deep) in
          let same : (H.create_dir_all dir s).1 ≡ s' = ground (arith, found, deep) in
          rw same at (fs.create_dir_all dir p text m s made shown)
    ]
  ]

  apply_drift-matches :
      (f : File) (uid gid : Option ℕ) (same_content : Bool) (s s' : H.State)
      → IsPlainMode f.mode
      → (same_content ≡ true → (m : Metadata) × (view H f.path s ≡ present f.content m))
      → apply_drift H f uid gid same_content s ≡ (ok changed_yes, s')
      → matches_view f uid gid (view H f.path s') ≡ true
  unfolding apply_drift
  apply_drift-matches f uid gid true s s' plain known e =
      let (made, rest) = then-eq-ok (ensure_parent_directory H "file" f.path) _ s s' e in
      let (m, shown) = known refl in
      fix_in_place-matches H fs f uid gid m (ensure_parent_directory H "file" f.path s).1 s' plain
        (ensure_parent-view f.path f.path f.content m s _ made shown) rest
  apply_drift-matches f uid gid false s s' plain known e =
      let (made, rest) = then-eq-ok (ensure_parent_directory H "file" f.path) _ s s' e in
      replace-matches H fs f uid gid (ensure_parent_directory H "file" f.path s).1 s' plain rest

  fix_in_place-yes :
      (f : File) (uid gid : Option ℕ) (s s' : H.State) (c : Changed)
      → fix_in_place H f uid gid s ≡ (ok c, s')
      → c ≡ changed_yes
  unfolding fix_in_place
  fix_in_place-yes f uid gid s s' c e =
      let what : String = "set permissions on" in
      let (moded, e₁) = then-eq-ok (set_mode H "file" what f.path f.mode) _ s s' e in
      let (owned, e₂) = then-eq-ok (set_owner H "file" f.path uid gid) _ _ s' e₁ in ground arith

  replace-yes :
      (f : File) (uid gid : Option ℕ) (s s' : H.State) (c : Changed)
      → replace H f uid gid s ≡ (ok c, s')
      → c ≡ changed_yes
  unfolding replace
  replace-yes f uid gid s s' c e =
      let tmp : FilePath = sibling_temp f.path in
      let (wrote, e₁) = then-eq-ok (write_full H "file" tmp (H.as_bytes f.content)) _ s s' e in
      let (moded, e₂) = then-eq-ok (set_mode H "file" "set permissions on" tmp f.mode) _ _ s' e₁ in
      let (owned, e₃) = then-eq-ok (set_owner H "file" tmp uid gid) _ _ s' e₂ in
      let (moved, e₄) = then-eq-ok (rename_over H "file" tmp f.path) _ _ s' e₃ in ground arith

  apply_drift-yes :
      (f : File) (uid gid : Option ℕ) (same : Bool) (s s' : H.State) (c : Changed)
      → apply_drift H f uid gid same s ≡ (ok c, s')
      → c ≡ changed_yes
  unfolding apply_drift
  apply_drift-yes f uid gid true s s' c e =
      let (made, rest) = then-eq-ok (ensure_parent_directory H "file" f.path) _ s s' e in
      fix_in_place-yes f uid gid _ s' c rest
  apply_drift-yes f uid gid false s s' c e =
      let (made, rest) = then-eq-ok (ensure_parent_directory H "file" f.path) _ s s' e in
      replace-yes f uid gid _ s' c rest

  readable :
      (f : File) (s : H.State)
      → content_matches (view H f.path s).text f.content ≡ true
      → (m : Metadata) × (view H f.path s ≡ present f.content m)
  readable f s same = elim (Result-cases (H.read_to_string f.path s)) [
    | inl (text, found) ↦
        let (m, stat) = fs.stat_of_read f.path text s found in
        let e : text ≡ f.content = (eq_iff text f.content).0 (ground (arith, found)) in
        (m, ground (arith, found, stat, e))
    | inr (x, failed) ↦ absurd (ground (arith, failed))
  ]

  -- What a run that writes has done, if it succeeds.
  converge_one-cases :
      (f : File) (env : Env) (uid gid : Option ℕ) (s s' : H.State) (c : Changed)
      → is_dry_run env ≡ false
      → LooksUp f uid gid s
      → converge_one H f env s ≡ (ok c, s')
      → ((c ≡ changed_no) × (s ≡ s') × (matches_view f uid gid (view H f.path s) ≡ true))
        ⊎ ((c ≡ changed_yes)
            × (apply_drift H f uid gid (content_matches (view H f.path s).text f.content) s
                ≡ (ok changed_yes, s')))
  unfolding converge_one
  converge_one-cases f env uid gid s s' c real looked e =
      let v : View = view H f.path s in
      elim (Bool-cases (matches_view f uid gid v)) [
        | inl good ↦
            let calm = converge_one-matching f env uid gid s looked good in
            inl (ground (arith, calm), ground (arith, calm), good)
        | inr drift ↦
            let ran : apply_drift H f uid gid (content_matches v.text f.content) s ≡ (ok c, s') =
              ground (arith, looked.owner, looked.group, real) in
            let changed = apply_drift-yes f uid gid (content_matches v.text f.content) s s' c ran in
            inr (changed, rw changed at ran)
      ]

  pub converge_one-matches :
      (f : File) (env : Env) (uid gid : Option ℕ) (s s' : H.State) (c : Changed)
      → is_dry_run env ≡ false
      → IsPlainMode f.mode
      → LooksUp f uid gid s
      → converge_one H f env s ≡ (ok c, s')
      → matches_view f uid gid (view H f.path s') ≡ true
  converge_one-matches f env uid gid s s' c real plain before e =
      elim (converge_one-cases f env uid gid s s' c real before e) [
        | inl (_, same, good) ↦
            subst (λ t. matches_view f uid gid (view H f.path t) ≡ true) same good
        | inr (_, ran) ↦
            apply_drift-matches f uid gid (content_matches (view H f.path s).text f.content) s s'
              plain (readable f s) ran
      ]

  -- A run that writes and succeeds leaves the file in the desired state: the next run, if the
  -- owner and the group still have the same numbers, reports no change and does nothing. The mode
  -- that is asked for has neither the set-user-id nor the set-group-id bit.
  pub converge_one-again :
      (f : File) (env : Env) (uid gid : Option ℕ) (s s' : H.State) (c : Changed)
      → is_dry_run env ≡ false
      → IsPlainMode f.mode
      → LooksUp f uid gid s
      → LooksUp f uid gid s'
      → converge_one H f env s ≡ (ok c, s')
      → converge_one H f env s' ≡ (ok changed_no, s')
  converge_one-again f env uid gid s s' c real plain before after e =
      converge_one-matching f env uid gid s' after
        (converge_one-matches f env uid gid s s' c real plain before e)
