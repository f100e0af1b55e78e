-- ===== src/Tests/Toy.antt =====
-- A small host: files with their metadata, and the child processes that were run on it.
use ansible_playbooks.Common.{
  ◌≡◌, refl, ap, String, ◌<>◌, Bool, true, false, not, ◌||◌, ◌&&◌, str_eq, Option, none, some, List,
  [], ◌∷◌, if◌then◌else◌, arith,
}
use text.Mathlib.TextPositions.{eq_refl}
use ansible_playbooks.Common.Results.{Result, ok, err}
use ansible_playbooks.Common.Text.{is_empty_text}
use ansible_playbooks.Host.{FilePath, IoError, Metadata, Output, Host, IsReadOnly}
use ansible_playbooks.Env.Detect.Found.{IsQuietProbe}
use ansible_playbooks.Backends.Fs.{result_ok}
use ansible_playbooks.Backends.Views.{view, present, or_old, IsFileSystem}

pub record Toy : Type 0 where
  pub files : FilePath → Option (String × Metadata)
  pub log : List (List String)

abbrev pub empty : Toy
empty = record { files = λ _. none; log = [] }

abbrev missing : IoError
missing = record { not_found = true; cause = "No such file or directory" }

abbrev found :
    {A : Type 0} → (String × Metadata → A) → Option (String × Metadata) → Result IoError A
found f none = err missing
found f (some x) = ok (f x)

abbrev put : FilePath → Option (String × Metadata) → Toy → Toy
put p x t = record t { files = λ q. if str_eq p q then x else t.files q }

abbrev pub fresh_meta : Metadata
fresh_meta = record { is_dir = false; mode = 0o644; uid = 0; gid = 0 }

-- A change of what stands at a path; it fails if nothing does.
abbrev change :
    (String × Metadata → String × Metadata)
    → FilePath
    → Option (String × Metadata)
    → Toy
    → Result IoError (Unit {0}) × Toy
change f p none t = (err missing, t)
change f p (some x) t = (ok tt, put p (some (f x)) t)

abbrev move :
    FilePath → FilePath → Option (String × Metadata) → Toy → Result IoError (Unit {0}) × Toy
move p q none t = (err missing, t)
move p q (some x) t = (ok tt, put q (some x) (put p none t))

abbrev status_verb : List String → Bool
status_verb [] = false
status_verb (verb ∷ more) = str_eq verb "is-enabled" || str_eq verb "is-active"

abbrev looks : List String → Bool
looks [] = false
looks (program ∷ more) =
    str_eq program "getent"
    || str_eq program "id"
    || str_eq program "dpkg-query"
    || str_eq program "uname"
    || str_eq program "lspci"
    || (str_eq program "systemctl" && status_verb more)

abbrev output : Bool → Output
output success = record {
  success = success;
  code = "Some(1)";
  stdout = "sudo docker\n";
  stderr = "no\n";
}

from_view :
    (o : Option (String × Metadata)) (text : String) (m : Metadata)
    → result_ok (found (λ x. x.0) o) ≡ some text
    → result_ok (found (λ x. x.1) o) ≡ some m
    → o ≡ some (text, m)
from_view none text m e₁ e₂ = cc
from_view (some (a, b)) text m e₁ e₂ = ground arith

found_meta :
    (o : Option (String × Metadata)) (text : String)
    → found (λ x. x.0) o ≡ ok text
    → (m : Metadata) × (found (λ x. x.1) o ≡ ok m)
found_meta none text e = cc
found_meta (some (a, b)) text e = (b, refl)

-- `fails` says which argument vectors exit with an error, after those that were run before.
module _ (fails : List (List String) → List String → Bool) where
  abbrev pub toy : Host
  toy = record {
    State = Toy;
    Bytes = String;
    same_bytes = str_eq;
    spawn = λ c t. (
      ok (output (not (fails t.log c.argv))),
      if looks c.argv then t else record t { log = c.argv ∷ t.log },
    );
    https_get = λ url t. (ok (record { is_success = true; status = "200 OK"; body = ok "key" }), t);
    read = λ p t. found (λ x. x.0) (t.files p);
    read_to_string = λ p t. found (λ x. x.0) (t.files p);
    metadata = λ p t. found (λ x. x.1) (t.files p);
    is_symlink = λ p t. found (λ _. false) (t.files p);
    read_link = λ p t. err missing;
    create = λ p t. (ok tt, put p (some ("", fresh_meta)) t);
    write_all = λ p bytes t.
        change (λ x. (if is_empty_text x.0 then bytes else x.0 <> bytes, x.1)) p (t.files p) t;
    flush = λ p t. (ok tt, t);
    rename = λ p q t. move p q (t.files p) t;
    remove_file = λ p t. change (λ x. x) p none t;
    symlink = λ p q t. (ok tt, t);
    create_dir_all = λ p t. (ok tt, t);
    set_permissions = λ p mode t. change (λ x. (x.0, record (x.1) { mode = mode })) p (t.files p) t;
    chown = λ p uid gid t.
        change (λ x. (x.0, record (x.1) { uid = or_old uid x.1.uid; gid = or_old gid x.1.gid })) p
          (t.files p) t;
    as_bytes = λ text. text;
    Pattern = Unit {0};
    regex_new = λ _. ok tt;
    is_match = λ _ _. true;
    parent = λ p. some "/etc";
    join_error = λ t. none;
  }

  pub toy-IsReadOnly : IsReadOnly toy
  toy-IsReadOnly = record {
    getent = λ args s. refl;
    id = λ args s. refl;
    dpkg_query = λ args s. refl;
    is_enabled = λ unit s. refl;
    is_active = λ unit s. refl;
    https_get = λ url s. refl;
  }

  pub toy-IsQuietProbe : IsQuietProbe toy
  toy-IsQuietProbe = record { uname = λ arg s. refl; lspci = λ s. refl }

  put-view :
      (p : FilePath) (x : String × Metadata) (t : Toy)
      → view toy p (put p (some x) t) ≡ present x.0 x.1
  put-view p x t = rw (eq_refl p)

  -- What a view with text and metadata says of the file behind it.
  present-file :
      (p : FilePath) (text : String) (m : Metadata) (t : Toy)
      → view toy p t ≡ present text m
      → t.files p ≡ some (text, m)
  present-file p text m t e = from_view (t.files p) text m (ap (λ v. v.text) e) (ap (λ v. v.meta) e)

  move-view :
      (p q : FilePath) (o : Option (String × Metadata)) (t : Toy)
      → t.files p ≡ o
      → (move p q o t).0 ≡ ok tt
      → view toy q (move p q o t).1 ≡ view toy p t
  move-view p q none t there e = cc
  move-view p q (some x) t there e = rw (there, eq_refl q)

  pub toy-IsFileSystem : IsFileSystem toy
  toy-IsFileSystem = record {
    create = λ p s e. (fresh_meta, put-view p ("", fresh_meta) s);
    write_all = λ p text m s e v. rw (present-file p "" m s v) (put-view p (text, m) s);
    flush = λ p s e. refl;
    set_permissions = λ p mode text m s e v.
        rw (present-file p text m s v) (put-view p (text, record m { mode = mode }) s);
    chown = λ p uid gid text m s e v. (
      m.mode,
      rw (present-file p text m s v)
          (put-view p (text, record m { uid = or_old uid m.uid; gid = or_old gid m.gid }) s),
      λ _. refl,
    );
    rename = λ p q s e. move-view p q (s.files p) s refl e;
    create_dir_all = λ dir p text m s e v. v;
    stat_of_read = λ p text s e. found_meta (s.files p) text e;
  }
