-- ===== src/Backends/Views.antt =====
-- What the file system promises of one path, as far as the backends rely on it.
use ansible_playbooks.Common.{ℕ, ◌<◌, ◌≡◌, String, Option, none, some, ◌^◌}
use ansible_playbooks.Common.Results.{ok}
use ansible_playbooks.Host.{FilePath, Metadata, Host}
use ansible_playbooks.Backends.Fs.{permission_bits, result_ok}

-- The text and the metadata that a path shows.
pub record View : Type 0 where
  pub text : Option String
  pub meta : Option Metadata

abbrev pub view : (H : Host) → FilePath → H.State → View
view H path s = record {
  text = result_ok (H.read_to_string path s);
  meta = result_ok (H.metadata path s);
}

abbrev pub present : String → Metadata → View
present text meta = record { text = some text; meta = some meta }

abbrev pub or_old : Option ℕ → ℕ → ℕ
or_old none old = old
or_old (some new) old = new

-- chmod(2), chown(2), rename(2), write(2), mkdir(2) and open(2), when they succeed. A change of
-- owner may clear the set-user-id and set-group-id bits, and keeps a mode that has neither.
pub record IsFileSystem (H : Host) : Type 0 where
  pub create :
      (p : FilePath) (s : H.State)
      → (H.create p s).0 ≡ ok tt
      → (m : Metadata) × (view H p (H.create p s).1 ≡ present "" m)
  pub write_all :
      (p : FilePath) (text : String) (m : Metadata) (s : H.State)
      → (H.write_all p (H.as_bytes text) s).0 ≡ ok tt
      → view H p s ≡ present "" m
      → view H p (H.write_all p (H.as_bytes text) s).1 ≡ present text m
  pub flush :
      (p : FilePath) (s : H.State) → (H.flush p s).0 ≡ ok tt → view H p (H.flush p s).1 ≡ view H p s
  pub set_permissions :
      (p : FilePath) (mode : ℕ) (text : String) (m : Metadata) (s : H.State)
      → (H.set_permissions p mode s).0 ≡ ok tt
      → view H p s ≡ present text m
      → view H p (H.set_permissions p mode s).1 ≡ present text (record m { mode = mode })
  pub chown :
      (p : FilePath) (uid gid : Option ℕ) (text : String) (m : Metadata) (s : H.State)
      → (H.chown p uid gid s).0 ≡ ok tt
      → view H p s ≡ present text m
      → (kept : ℕ) × (view H p (H.chown p uid gid s).1
          ≡ present text (record m { mode = kept; uid = or_old uid m.uid; gid = or_old gid m.gid }))
        × (permission_bits m.mode < 2 ^ 10 → permission_bits kept ≡ permission_bits m.mode)
  pub rename :
      (p q : FilePath) (s : H.State)
      → (H.rename p q s).0 ≡ ok tt
      → view H q (H.rename p q s).1 ≡ view H p s
  pub create_dir_all :
      (dir p : FilePath) (text : String) (m : Metadata) (s : H.State)
      → (H.create_dir_all dir s).0 ≡ ok tt
      → view H p s ≡ present text m
      → view H p (H.create_dir_all dir s).1 ≡ present text m
  pub stat_of_read :
      (p : FilePath) (text : String) (s : H.State)
      → H.read_to_string p s ≡ ok text
      → (m : Metadata) × (H.metadata p s ≡ ok m)
