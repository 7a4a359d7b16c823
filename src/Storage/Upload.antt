-- ===== src/Storage/Upload.antt =====
-- What a submitted form does with an upload, fastapi_admin_kit/views/file_handler.py. A field's
-- value is the path of its file or None, and what a field is told is a kind of error.
use fastapi_admin_kit.Base.{
  ℕ, String, ◌==◌, Bool, false, not, ◌||◌, Option, none, some, List, map, length, codes, nat_eq,
  ltb, if◌then◌else◌,
}
use fastapi_admin_kit.Base.Dict.{Dict, insert}
use fastapi_admin_kit.Base.Text.{strip}
use fastapi_admin_kit.Storage.Local.{
  Files, Storage, Upload, is_empty, is_word, is_directory_name, or_default, one_slash_off, save,
  delete,
}

-- `_safe_directory_name`
unfoldable pub safe_directory_name : List ℕ → List ℕ
safe_directory_name name =
    let sanitized = strip (λ c. nat_eq c b'_') (map (λ c. if is_word c then c else b'_') name) in
    if is_empty sanitized || not (is_directory_name sanitized) then codes "files" else sanitized

-- `_normalize_stored_path`; the empty path is not one slash and stays.
unfoldable pub normalize_stored_path : List ℕ → List ℕ
normalize_stored_path path = one_slash_off path

pub data FileError : Type 0 where
  too_large no_storage refused : FileError

pub record Form : Type 0 where
  pub files : Files
  pub parsed : Dict (Option (List ℕ))
  pub errors : Dict FileError

abbrev pub with_error : String → FileError → Form → Form
with_error field e f = record f { errors = insert field e f.errors }

abbrev pub with_value : String → Option (List ℕ) → Form → Form
with_value field v f = record f { parsed = insert field v f.parsed }

-- `_enforce_size_limit`: the declared size counts, or else the length.
unfoldable pub is_within_limit : Option ℕ → Upload → Bool
is_within_limit max_size u = elim u.size [
  | some declared ↦ not (ltb (or_default max_size) declared)
  | none ↦ not (ltb (or_default max_size) (length u.content))
]

-- The path that the object has in the field; `obj` is the value there, if there is an object.
abbrev pub old_path : Option (Option (List ℕ)) → Option (List ℕ)
old_path (some (some path)) = if is_empty path then none else some path
old_path _ = none

abbrev pub after_delete : String → (Form → Form) → Form → Option Files → Form
after_delete field next f none = with_error field refused f
after_delete field next f (some files) = next (record f { files = files })

-- The old file is deleted if there is one, and then comes `next`.
abbrev pub drop_old : Storage → String → (Form → Form) → Form → Option (List ℕ) → Form
drop_old s field next f none = next f
drop_old s field next f (some path) =
    after_delete field next f (delete s (normalize_stored_path path) f.files)

abbrev pub after_save :
    (s : Storage) (field : String) (obj : Option (Option (List ℕ))) (replaces : Bool) (f : Form)
    → Option (List ℕ × Files)
    → Form
after_save s field obj replaces f none = with_error field refused f
after_save s field obj replaces f (some (path, files)) =
    if replaces
    then drop_old s field (with_value field (some path)) (record f { files = files }) (old_path obj)
    else with_value field (some path) (record f { files = files })

unfoldable pub save_upload :
    (storage : Option Storage) (hex : List ℕ) (max_size : Option ℕ) (field : String) (u : Upload)
    (obj : Option (Option (List ℕ))) (replaces : Bool) (f : Form)
    → Form
save_upload none hex max_size field u obj replaces f =
    if is_within_limit max_size u
    then with_error field no_storage f
    else with_error field too_large f
save_upload (some s) hex max_size field u obj replaces f =
    if is_within_limit max_size u
    then after_save s field obj replaces f
        (save s hex u (safe_directory_name (codes field)) f.files)
    else with_error field too_large f

unfoldable pub clear_file : Option Storage → String → Option (Option (List ℕ)) → Form → Form
clear_file none field obj f = with_value field none f
clear_file (some s) field obj f = drop_old s field (with_value field none) f (old_path obj)

unfoldable pub keep_file : String → Option (Option (List ℕ)) → Form → Form
keep_file field none f = f
keep_file field (some value) f = with_value field value f

abbrev pub is_action : String → Option String → Bool
is_action name none = false
is_action name (some action) = action == name

unfoldable pub without_upload :
    Option Storage → String → Option (Option (List ℕ)) → (action : Option String) → Form → Form
without_upload storage field obj action f =
    if is_action "clear" action then clear_file storage field obj f else keep_file field obj f

-- `raw` is what the form sends if this is an upload.
unfoldable pub handle_file_field :
    (storage : Option Storage) (hex : List ℕ) (max_size : Option ℕ) (field : String)
    (raw : Option Upload) (obj : Option (Option (List ℕ))) (action : Option String) (f : Form)
    → Form
handle_file_field storage hex max_size field none obj action f =
    without_upload storage field obj action f
handle_file_field storage hex max_size field (some u) obj action f =
    if is_empty u.filename
    then without_upload storage field obj action f
    else save_upload storage hex max_size field u obj (is_action "replace" action) f
