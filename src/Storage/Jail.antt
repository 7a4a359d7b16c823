-- ===== src/Storage/Jail.antt =====
-- No file outside of the upload directory is touched, fastapi_admin_kit/storage/local.py.
use fastapi_admin_kit.Base.{
  ℕ, Bool, true, false, ◌||◌, Option, none, some, List, [], ◌∷◌, length, ltb, ◌≡◌, refl, ap, arith,
  ◌↔◌, inl, inr, Bool-cases, if-elim,
}
use fastapi_admin_kit.Base.Text.{eq_codes_iff}
use fastapi_admin_kit.Storage.Paths.{FilePath, join, resolve, is_within, eq_path}
use fastapi_admin_kit.Storage.Local.{
  Files, Storage, Upload, write, remove, is_file, is_empty, or_unnamed, is_invalid,
  is_declared_above, sanitize_filename, is_directory_name, resolve_within_jail, effective_max_bytes,
  relative_to, jailed_text, stored_name, write_checked, save_in, save, delete_file, delete,
}

pub eq_path_iff : (p q : FilePath) → (eq_path p q ≡ true) ↔ (p ≡ q)
unfolding eq_path
eq_path_iff [] [] = (λ h. refl, λ h. refl)
eq_path_iff [] (t ∷ q) = (λ h. cc, λ h. cc)
eq_path_iff (s ∷ p) [] = (λ h. cc, λ h. cc)
eq_path_iff (s ∷ p) (t ∷ q) = (
  λ h.
      let tail = (eq_path_iff p q).0 (ground arith) in
      let head = (eq_codes_iff s t).0 (ground arith) in cc,
  λ h.
      let head : s ≡ t = cc in
      let tail : p ≡ q = cc in
      let a = (eq_codes_iff s t).1 head in let b = (eq_path_iff p q).1 tail in ground arith,
)

module _ (s : Storage) where
  -- Outside of the upload directory the files are the same.
  abbrev pub IsSameOutside : Files → Files → Type 0
  IsSameOutside files files' = (p : FilePath) → is_within s.base p ≡ false → files' p ≡ files p

  -- Another path than one within.
  apart :
      (target p : FilePath)
      → is_within s.base target ≡ true
      → is_within s.base p ≡ false
      → eq_path p target ≡ false
  apart target p inside outside = elim (Bool-cases (eq_path p target)) [
    | inl same ↦
        absurd (clash (ap (is_within s.base) ((eq_path_iff p target).0 same)) inside outside)
    | inr differ ↦ differ
  ]
    where
      clash : {a b : Bool} → a ≡ b → b ≡ true → a ≡ false → ⊥
      clash e t f = cc

  write-IsSameOutside :
      (target : FilePath) (content : List ℕ) (files : Files)
      → is_within s.base target ≡ true
      → IsSameOutside files (write target content files)
  write-IsSameOutside target content files inside p outside =
      rw (apart target p inside outside) refl

  remove-IsSameOutside :
      (target : FilePath) (files : Files)
      → is_within s.base target ≡ true
      → IsSameOutside files (remove target files)
  remove-IsSameOutside target files inside p outside = rw (apart target p inside outside) refl

  -- What holds of the value, if there is one.
  abbrev pub Returns : {A : Type 0} → (A → Type 0) → Option A → Type 0
  Returns Q none = Unit
  Returns Q (some a) = Q a

  resolve_within_jail-IsWithin :
      (text : List ℕ) → Returns (λ p. is_within s.base p ≡ true) (resolve_within_jail s text)
  unfolding resolve_within_jail
  resolve_within_jail-IsWithin text =
      if-elim (Returns (λ p. is_within s.base p ≡ true)) (is_invalid text) _ _ (λ i. tt)
        (λ v.
          if-elim (Returns (λ p. is_within s.base p ≡ true))
            (is_within s.base (resolve (join s.base text))) _ _ (λ inside. inside) (λ outside. tt))

  pub delete-IsSameOutside :
      (path : List ℕ) (files : Files) → Returns (IsSameOutside files) (delete s path files)
  unfolding delete
  delete-IsSameOutside path files =
      go (resolve_within_jail s path) (resolve_within_jail-IsWithin path)
    where
      go :
          (found : Option FilePath)
          → Returns (λ p. is_within s.base p ≡ true) found
          → Returns (IsSameOutside files) (delete_file files found)
      go none h = tt
      go (some target) inside =
          if-elim (IsSameOutside files) (is_file (files target)) _ _
            (λ there. remove-IsSameOutside target files inside) (λ gone p outside. refl)

  abbrev pub IsSaved : Files → List ℕ × Files → Type 0
  IsSaved files r = IsSameOutside files r.1

  write_checked-IsSaved :
      (file : Upload) (name : List ℕ) (target : FilePath) (files : Files)
      → Returns
          (IsSaved files)
          (write_checked s file name target files (jailed_text s (relative_to s.base target)))
  write_checked-IsSaved file name target files = elim (Bool-cases (is_within s.base target)) [
    | inl inside ↦ go inside (jailed_text s (relative_to s.base target))
    | inr outside ↦ rw outside tt
  ]
    where
      go :
          is_within s.base target ≡ true
          → (checked : Option FilePath)
          → Returns (IsSaved files) (write_checked s file name target files checked)
      go inside none = tt
      go inside (some checked) =
          if-elim (Returns (IsSaved files))
            (is_declared_above (effective_max_bytes s) file.size
              || ltb (effective_max_bytes s) (length file.content))
            _ _ (λ large. tt) (λ fits. write-IsSameOutside target file.content files inside)

  save_in-IsSaved :
      (filename : List ℕ) (file : Upload) (directory : List ℕ) (files : Files)
      (dir : Option FilePath)
      → Returns (IsSaved files) (save_in s filename file directory files dir)
  unfolding save_in
  save_in-IsSaved filename file directory files none = tt
  save_in-IsSaved filename file directory files (some dir) =
      write_checked-IsSaved file (stored_name directory filename) (join dir filename) files

  pub save-IsSaved :
      (hex : List ℕ) (file : Upload) (directory : List ℕ) (files : Files)
      → Returns (IsSaved files) (save s hex file directory files)
  unfolding save
  save-IsSaved hex file directory files =
      let filename = sanitize_filename hex (or_unnamed file.filename) in
      if-elim (Returns (IsSaved files)) (is_empty directory) _ _
        (λ top. save_in-IsSaved filename file directory files (some s.base))
        (λ below.
          if-elim (Returns (IsSaved files)) (is_directory_name directory) _ _
            (λ named.
              save_in-IsSaved filename file directory files (resolve_within_jail s directory))
            (λ other. tt))
