-- ===== src/Storage/Local.antt =====
-- `sanitize_filename` of fastapi_admin_kit/storage/base.py and `LocalStorageBackend` of
-- storage/local.py. The file system maps the path of a file to its bytes; directories are left out.
-- A ValueError is `none`. `hex` is a fresh `uuid4().hex`, and sizes in megabytes are already
-- numbers of bytes.
use fastapi_admin_kit.Base.{
  ℕ, ◌+◌, ◌*◌, Bool, true, false, not, ◌&&◌, ◌||◌, Option, none, some, List, [], ◌∷◌, ◌++◌, map,
  keep, any, length, take, drop, codes, nat_eq, ltb, leb, if◌then◌else◌,
}
use fastapi_admin_kit.Base.Text.{eq_codes, starts_with, lstrip}
use fastapi_admin_kit.Storage.Paths.{FilePath, parts, join, resolve, is_within, eq_path, last_part}

abbrev pub Files : Type 0
Files = FilePath → Option (List ℕ)

abbrev pub write : FilePath → List ℕ → Files → Files
write target content files p = if eq_path p target then some content else files p

abbrev pub remove : FilePath → Files → Files
remove target files p = if eq_path p target then none else files p

abbrev pub is_file : Option (List ℕ) → Bool
is_file none = false
is_file (some content) = true

-- `base` is `upload_dir.resolve()`.
pub record Storage : Type 0 where
  pub upload_dir : List ℕ
  pub base : FilePath
  pub base_url : List ℕ
  pub max_size : Option ℕ

pub record Upload : Type 0 where
  pub filename : List ℕ
  pub size : Option ℕ
  pub content : List ℕ

abbrev pub default_max_size : ℕ
default_max_size = 10 * 1024 * 1024

abbrev pub is_empty : List ℕ → Bool
is_empty s = eq_codes s []

abbrev pub or_unnamed : List ℕ → List ℕ
or_unnamed s = if is_empty s then codes "unnamed" else s

-- `name.replace("/", "_").replace("\\", "_")`
abbrev pub no_separator : ℕ → ℕ
no_separator c = if nat_eq c b'/' || nat_eq c b'\\' then b'_' else c

abbrev pub clean : List ℕ → List ℕ
clean name = map no_separator (keep (λ c. not (nat_eq c 0)) name)

unfoldable pub sanitize_filename : List ℕ → List ℕ → List ℕ
sanitize_filename hex filename =
    take 12 hex ++ b'_' ∷ clean (or_unnamed (last_part (parts filename)))

-- A character of `[A-Za-z0-9_-]`.
abbrev pub is_word : ℕ → Bool
is_word c =
    (leb b'A' c && leb c b'Z')
    || ((leb b'a' c && leb c b'z')
        || ((leb b'0' c && leb c b'9') || (nat_eq c b'_' || nat_eq c b'-')))

-- `$` matches behind the last character, and before a line feed that is the last one.
abbrev pub is_words : List ℕ → Bool
is_words [] = true
is_words (c ∷ s) = (is_word c && is_words s) || (nat_eq c 10 && is_empty s)

-- `^[A-Za-z0-9_-]+$`
unfoldable pub is_directory_name : List ℕ → Bool
is_directory_name [] = false
is_directory_name (c ∷ s) = is_word c && is_words s

abbrev pub is_invalid : List ℕ → Bool
is_invalid text = any (λ c. nat_eq c 0) text || any (λ c. nat_eq c b'\\') text

-- `_resolve_within_jail`
unfoldable pub resolve_within_jail : Storage → List ℕ → Option FilePath
resolve_within_jail s text =
    let candidate = resolve (join s.base text) in
    if is_invalid text then none else (if is_within s.base candidate then some candidate else none)

abbrev pub or_default : Option ℕ → ℕ
or_default none = default_max_size
or_default (some n) = n

unfoldable pub effective_max_bytes : Storage → ℕ
effective_max_bytes s = or_default s.max_size

abbrev pub is_declared_above : ℕ → Option ℕ → Bool
is_declared_above max none = false
is_declared_above max (some size) = ltb max size

-- A path as text, `a/b`.
abbrev pub slashed : FilePath → List ℕ
slashed [] = []
slashed (s ∷ []) = s
slashed (s ∷ (t ∷ p)) = s ++ b'/' ∷ slashed (t ∷ p)

-- `target.relative_to(base)`
abbrev pub relative_to : FilePath → FilePath → Option (List ℕ)
relative_to base target =
    if is_within base target then some (slashed (drop (length base) target)) else none

abbrev pub stored_name : List ℕ → List ℕ → List ℕ
stored_name directory filename =
    if is_empty directory then filename else directory ++ b'/' ∷ filename

-- The checks behind the target, and the writing.
abbrev pub write_checked :
    Storage → Upload → List ℕ → FilePath → Files → Option FilePath → Option (List ℕ × Files)
write_checked s file name target files none = none
write_checked s file name target files (some checked) =
    if is_declared_above (effective_max_bytes s) file.size
      || ltb (effective_max_bytes s) (length file.content)
    then none
    else some (name, write target file.content files)

abbrev pub jailed_text : Storage → Option (List ℕ) → Option FilePath
jailed_text s none = none
jailed_text s (some text) = resolve_within_jail s text

-- From the directory on.
unfoldable pub save_in :
    Storage → List ℕ → Upload → List ℕ → Files → Option FilePath → Option (List ℕ × Files)
save_in s filename file directory files none = none
save_in s filename file directory files (some dir) =
    let target = join dir filename in
    write_checked s file (stored_name directory filename) target files
      (jailed_text s (relative_to s.base target))

unfoldable pub save :
    Storage → (hex : List ℕ) → Upload → (directory : List ℕ) → Files → Option (List ℕ × Files)
save s hex file directory files =
    let filename = sanitize_filename hex (or_unnamed file.filename) in
    if is_empty directory
    then save_in s filename file directory files (some s.base)
    else (if is_directory_name directory
        then save_in s filename file directory files (resolve_within_jail s directory)
        else none)

abbrev pub delete_file : Files → Option FilePath → Option Files
delete_file files none = none
delete_file files (some target) =
    some (if is_file (files target) then remove target files else files)

unfoldable pub delete : Storage → List ℕ → Files → Option Files
delete s path files = delete_file files (resolve_within_jail s path)

-- `path.startswith("/") and not path.startswith("//")`, and then without it
abbrev pub one_slash_off : List ℕ → List ℕ
one_slash_off path =
    if starts_with (b'/' ∷ []) path && not (starts_with (b'/' ∷ b'/' ∷ []) path)
    then drop 1 path
    else path

abbrev pub without_prefix : Storage → List ℕ → List ℕ
without_prefix s path =
    if not (is_empty s.upload_dir) && starts_with (s.upload_dir ++ b'/' ∷ []) path
    then drop (length s.upload_dir + 1) path
    else (if not (is_empty s.upload_dir) && eq_codes path s.upload_dir
        then []
        else one_slash_off path)

unfoldable pub url : Storage → List ℕ → (strip_prefix : Bool) → List ℕ
url s path strip_prefix =
    let full = s.base_url ++ b'/' ∷ without_prefix s path in
    if strip_prefix then lstrip (λ c. nat_eq c b'/') full else full
