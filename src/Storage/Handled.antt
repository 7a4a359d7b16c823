-- ===== src/Storage/Handled.antt =====
-- What an upload changes, fastapi_admin_kit/views/file_handler.py.
use fastapi_admin_kit.Base.{
  ℕ, String, ◌==◌, Bool, false, Option, none, some, List, codes, ◌≡◌, refl, ap, ◌∙◌, ◌⊎◌, inl, inr,
  if-elim,
}
use fastapi_admin_kit.Base.Dict.{Dict, lookup, insert, lookup-insert}
use fastapi_admin_kit.Storage.Paths.{FilePath}
use fastapi_admin_kit.Storage.Local.{Files, Storage, Upload, is_empty, save, delete}
use fastapi_admin_kit.Storage.Jail.{
  IsSameOutside, Returns, IsSaved, delete-IsSameOutside, save-IsSaved,
}
use fastapi_admin_kit.Storage.Upload.{
  FileError, refused, too_large, no_storage, Form, with_error, with_value, is_within_limit,
  old_path, after_delete, drop_old, after_save, safe_directory_name, normalize_stored_path,
  save_upload, clear_file, keep_file, is_action, without_upload, handle_file_field,
}

-- Without a storage no file changes, with one none outside of its directory.
abbrev pub IsSameFiles : Option Storage → Files → Files → Type 0
IsSameFiles none files files' = (p : FilePath) → files' p ≡ files p
IsSameFiles (some s) files files' = IsSameOutside s files files'

module _ (field : String) (start : Form) where
  -- Only the field's own entry may differ.
  abbrev pub IsSameElsewhere : {A : Type 0} → Dict A → Dict A → Type 0
  IsSameElsewhere d d' = (k : String) → (field == k) ≡ false → lookup k d' ≡ lookup k d

  abbrev pub IsHandled : Option Storage → Form → Type 0
  IsHandled storage f =
      IsSameFiles storage start.files f.files
      × IsSameElsewhere start.parsed f.parsed
      × IsSameElsewhere start.errors f.errors
      × ((f.errors ≡ start.errors) ⊎ (f.parsed ≡ start.parsed))

  -- Only files were changed so far.
  abbrev IsMoved : Option Storage → Form → Type 0
  IsMoved storage f =
      IsSameFiles storage start.files f.files
      × (f.parsed ≡ start.parsed)
      × (f.errors ≡ start.errors)

  insert-IsSameElsewhere :
      {A : Type 0} (v : A) (d d' : Dict A) → d' ≡ d → IsSameElsewhere d (insert field v d')
  insert-IsSameElsewhere v d d' e k other = lookup-insert field k v d' ∙ rw other (ap (lookup k) e)

  same_elsewhere : {A : Type 0} (d d' : Dict A) → d' ≡ d → IsSameElsewhere d d'
  same_elsewhere d d' e k other = ap (lookup k) e

  with_error-IsHandled :
      (storage : Option Storage) (error : FileError) (f : Form)
      → IsMoved storage f
      → IsHandled storage (with_error field error f)
  with_error-IsHandled storage error f (files, parsed, errors) = (
    files,
    same_elsewhere start.parsed f.parsed parsed,
    insert-IsSameElsewhere error start.errors f.errors errors,
    inr parsed,
  )

  with_value-IsHandled :
      (storage : Option Storage) (v : Option (List ℕ)) (f : Form)
      → IsMoved storage f
      → IsHandled storage (with_value field v f)
  with_value-IsHandled storage v f (files, parsed, errors) = (
    files,
    insert-IsSameElsewhere v start.parsed f.parsed parsed,
    same_elsewhere start.errors f.errors errors,
    inl errors,
  )

  unchanged : (storage : Option Storage) (f : Form) → IsMoved storage f → IsHandled storage f
  unchanged storage f (files, parsed, errors) = (
    files,
    same_elsewhere start.parsed f.parsed parsed,
    same_elsewhere start.errors f.errors errors,
    inl errors,
  )

  start-IsMoved : (storage : Option Storage) → IsMoved storage start
  start-IsMoved none = ((λ p. refl), refl, refl)
  start-IsMoved (some s) = ((λ p outside. refl), refl, refl)

  module _ (s : Storage) where
    drop_old-IsHandled :
        (v : Option (List ℕ)) (f : Form) (old : Option (List ℕ))
        → IsMoved (some s) f
        → IsHandled (some s) (drop_old s field (with_value field v) f old)
    drop_old-IsHandled v f none h = with_value-IsHandled (some s) v f h
    drop_old-IsHandled v f (some path) (files, parsed, errors) =
        go (delete s (normalize_stored_path path) f.files)
          (delete-IsSameOutside s (normalize_stored_path path) f.files)
      where
        go :
            (found : Option Files)
            → Returns s (IsSameOutside s f.files) found
            → IsHandled (some s) (after_delete field (with_value field v) f found)
        go none k = with_error-IsHandled (some s) refused f (files, parsed, errors)
        go (some files') k =
            with_value-IsHandled (some s) v (record f { files = files' })
              ((λ p outside. k p outside ∙ files p outside), parsed, errors)

    after_save-IsHandled :
        (obj : Option (Option (List ℕ))) (replaces : Bool) (found : Option (List ℕ × Files))
        → Returns s (IsSaved s start.files) found
        → IsHandled (some s) (after_save s field obj replaces start found)
    after_save-IsHandled obj replaces none h =
        with_error-IsHandled (some s) refused start (start-IsMoved (some s))
    after_save-IsHandled obj replaces (some (path, files)) h =
        if-elim (IsHandled (some s)) replaces _ _
          (λ r.
            drop_old-IsHandled (some path) (record start { files = files }) (old_path obj)
              (h, refl, refl))
          (λ n.
            with_value-IsHandled (some s) (some path) (record start { files = files })
              (h, refl, refl))

  save_upload-IsHandled :
      (storage : Option Storage) (hex : List ℕ) (max_size : Option ℕ) (u : Upload)
      (obj : Option (Option (List ℕ))) (replaces : Bool)
      → IsHandled storage (save_upload storage hex max_size field u obj replaces start)
  unfolding save_upload
  save_upload-IsHandled none hex max_size u obj replaces =
      if-elim (IsHandled none) (is_within_limit max_size u) _ _
        (λ w. with_error-IsHandled none no_storage start (start-IsMoved none))
        (λ l. with_error-IsHandled none too_large start (start-IsMoved none))
  save_upload-IsHandled (some s) hex max_size u obj replaces =
      if-elim (IsHandled (some s)) (is_within_limit max_size u) _ _
        (λ w.
          after_save-IsHandled s obj replaces
            (save s hex u (safe_directory_name (codes field)) start.files)
            (save-IsSaved s hex u (safe_directory_name (codes field)) start.files))
        (λ l. with_error-IsHandled (some s) too_large start (start-IsMoved (some s)))

  without_upload-IsHandled :
      (storage : Option Storage) (obj : Option (Option (List ℕ))) (action : Option String)
      → IsHandled storage (without_upload storage field obj action start)
  unfolding without_upload clear_file keep_file
  without_upload-IsHandled storage obj action =
      if-elim (IsHandled storage) (is_action "clear" action) _ _ (λ c. clear storage)
        (λ k. kept obj)
    where
      clear : (storage : Option Storage) → IsHandled storage (clear_file storage field obj start)
      clear none = with_value-IsHandled none none start (start-IsMoved none)
      clear (some s) = drop_old-IsHandled s none start (old_path obj) (start-IsMoved (some s))

      kept : (obj : Option (Option (List ℕ))) → IsHandled storage (keep_file field obj start)
      kept none = unchanged storage start (start-IsMoved storage)
      kept (some value) = with_value-IsHandled storage value start (start-IsMoved storage)

  -- Whatever is uploaded under whatever name, whatever path the object holds and whatever action is
  -- asked for: no file outside of the upload directory is written or deleted, only the field's own
  -- value and error change, and a field that gets an error gets no value.
  pub handle_file_field-IsHandled :
      (storage : Option Storage) (hex : List ℕ) (max_size : Option ℕ) (raw : Option Upload)
      (obj : Option (Option (List ℕ))) (action : Option String)
      → IsHandled storage (handle_file_field storage hex max_size field raw obj action start)
  unfolding handle_file_field
  handle_file_field-IsHandled storage hex max_size none obj action =
      without_upload-IsHandled storage obj action
  handle_file_field-IsHandled storage hex max_size (some u) obj action =
      if-elim (IsHandled storage) (is_empty u.filename) _ _
        (λ e. without_upload-IsHandled storage obj action)
        (λ n. save_upload-IsHandled storage hex max_size u obj (is_action "replace" action))
