-- ===== src/Storage/Tests.antt =====
-- Runs of fastapi_admin_kit/storage/ and views/file_handler.py: a saved file, and a path that leads
-- out.
use fastapi_admin_kit.Base.{
  ℕ, false, none, some, List, [], ◌∷◌, ◌++◌, codes, ◌≡◌, refl, if◌then◌else◌,
}
use fastapi_admin_kit.Base.Text.{eq_codes, starts_with, split}
use fastapi_admin_kit.Storage.Paths.{
  FilePath, root_of, parts, join, walk, resolve, is_within, eq_path, last_part,
}
use fastapi_admin_kit.Storage.Local.{
  Files, Storage, Upload, write, sanitize_filename, is_directory_name, resolve_within_jail,
  stored_name, save, delete, url,
}
use fastapi_admin_kit.Storage.Stored.{place, is_too_large, name_of, delete-save}
use fastapi_admin_kit.Storage.Upload.{Form, handle_file_field}
use fastapi_admin_kit.Storage.Handled.{IsHandled, handle_file_field-IsHandled}

abbrev storage : Storage
storage = record {
  upload_dir = codes "uploads";
  base = codes "srv" ∷ codes "uploads" ∷ [];
  base_url = codes "/files";
  max_size = none;
}

abbrev upload : Upload
upload = record { filename = codes "../../etc/a\\b"; size = none; content = 1 ∷ 2 ∷ [] }

abbrev hex : List ℕ
hex = codes "0123456789abcdef"

abbrev no_files : Files
no_files p = none

no_climbing : delete storage (codes "../x") no_files ≡ none
unfolding delete resolve_within_jail join root_of parts resolve walk is_within split starts_with
    eq_codes
no_climbing = refl

name_cleaned : sanitize_filename hex upload.filename ≡ codes "0123456789ab_a_b"
unfolding sanitize_filename parts split last_part eq_codes
name_cleaned = refl

old_prefix_off : url storage (codes "uploads/docs/f") false ≡ codes "/files/docs/f"
unfolding url starts_with eq_codes
old_prefix_off = refl

delete-save_example :
    (save storage hex upload (codes "docs") no_files ≡ (
      if is_too_large storage upload
      then none
      else some (
        stored_name (codes "docs") (name_of hex upload),
        write (storage.base ++ place (codes "docs") (name_of hex upload)) upload.content no_files,
      )))
    × (left : Files) × (delete storage (stored_name (codes "docs") (name_of hex upload)) (
          write (storage.base ++ place (codes "docs") (name_of hex upload)) upload.content no_files)
        ≡ some left)
    × ((p : FilePath)
        → left p ≡ (
            if eq_path p (storage.base ++ place (codes "docs") (name_of hex upload))
            then none
            else no_files p))
unfolding is_directory_name eq_codes
delete-save_example =
    delete-save storage (refl, (refl, tt)) hex upload refl (codes "docs") no_files refl

abbrev form : Form
form = record { files = no_files; parsed = []; errors = [] }

handle_file_field-IsHandled_example : IsHandled "cover" form (some storage) (
    handle_file_field
      (some storage)
      hex
      none
      "cover"
      (some upload)
      (some (some (codes "../../x")))
      (some "replace")
      form)
handle_file_field-IsHandled_example =
    handle_file_field-IsHandled "cover" form (some storage) hex none (some upload)
      (some (some (codes "../../x"))) (some "replace")
