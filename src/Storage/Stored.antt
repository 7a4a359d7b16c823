-- ===== src/Storage/Stored.antt =====
-- Saving a file and deleting it by the path that was given out, fastapi_admin_kit/storage/local.py.
use mathlib.Core.List.{append_assoc, append-nil}
use fastapi_admin_kit.Base.{
  ℕ, Bool, true, false, ◌||◌, Option, none, some, List, [], ◌∷◌, ◌++◌, all, length, ltb, All-append,
  ◌≡◌, refl, sym, ap, ◌∙◌, arith, if◌then◌else◌,
}
use fastapi_admin_kit.Base.Text.{eq_codes}
use fastapi_admin_kit.Storage.Paths.{FilePath, parts, root_of, join, is_up, eq_path}
use fastapi_admin_kit.Storage.Local.{
  Files, Storage, Upload, write, remove, is_empty, or_unnamed, is_invalid, is_declared_above,
  is_word, sanitize_filename, is_directory_name, resolve_within_jail, effective_max_bytes,
  relative_to, slashed, stored_name, save_in, save, delete,
}
use fastapi_admin_kit.Storage.Jail.{eq_path_iff}
use fastapi_admin_kit.Storage.Plain.{
  is_harmless, IsPlain, IsResolved, parts-IsPlain, parts-slash, root_of-none, plain_not_up,
  resolve-IsResolved, is_within-append, drop-length, is_invalid-all, sanitize_filename-IsPlain,
  is_directory_name-IsPlain,
}

-- The file is larger than the storage takes.
abbrev pub is_too_large : Storage → Upload → Bool
is_too_large s file =
    is_declared_above (effective_max_bytes s) file.size
    || ltb (effective_max_bytes s) (length file.content)

abbrev pub name_of : List ℕ → Upload → List ℕ
name_of hex file = sanitize_filename hex (or_unnamed file.filename)

abbrev pub place : List ℕ → List ℕ → FilePath
place directory filename = if is_empty directory then filename ∷ [] else directory ∷ filename ∷ []

join-parts :
    (base p : FilePath) (text : List ℕ)
    → root_of text ≡ none
    → parts text ≡ p
    → join base text ≡ base ++ p
unfolding join
join-parts base p text relative e = rw (join, relative, e) refl

module _ (s : Storage) (resolved : IsResolved s.base) where
  -- A text without bad characters and with parts that do not lead up names the path below the base.
  jail_parts :
      (text : List ℕ) (p : FilePath)
      → is_invalid text ≡ false
      → root_of text ≡ none
      → parts text ≡ p
      → IsResolved p
      → resolve_within_jail s text ≡ some (s.base ++ p)
  unfolding resolve_within_jail
  jail_parts text p valid relative e plain =
      rw
        (
          valid,
          join-parts s.base p text relative e,
          resolve-IsResolved (s.base ++ p)
              (All-append (λ t. is_up t ≡ false) s.base p resolved plain),
          is_within-append s.base p,
        )
        refl

  plain_root : (t : List ℕ) → IsPlain t → root_of t ≡ none
  plain_root t (w, h) = ap root_of (sym (append-nil t)) ∙ root_of-none t [] w

  jail_plain : (t : List ℕ) → IsPlain t → resolve_within_jail s t ≡ some (s.base ++ t ∷ [])
  jail_plain t plain =
      jail_parts t (t ∷ []) (is_invalid-all t plain.1) (plain_root t plain) (parts-IsPlain t plain)
        (plain_not_up t plain, tt)

  invalid_slash :
      (d t : List ℕ)
      → all is_harmless d ≡ true
      → all is_harmless t ≡ true
      → is_invalid (d ++ b'/' ∷ t) ≡ false
  invalid_slash [] t h k = ground (arith, is_invalid-all t k)
  invalid_slash (c ∷ d) t h k =
      let ih = invalid_slash d t (ground (arith, h)) k in ground (arith, h, ih)

  jail_slash :
      (d t : List ℕ)
      → IsPlain d
      → IsPlain t
      → resolve_within_jail s (d ++ b'/' ∷ t) ≡ some (s.base ++ d ∷ t ∷ [])
  jail_slash d t plain plain' =
      jail_parts (d ++ b'/' ∷ t) (d ∷ t ∷ []) (invalid_slash d t plain.1 plain'.1)
        (root_of-none d (b'/' ∷ t) plain.0) (parts-slash d t plain plain')
        (plain_not_up d plain, (plain_not_up t plain', tt))

  join_plain : (p : FilePath) (t : List ℕ) → IsPlain t → join p t ≡ p ++ t ∷ []
  join_plain p t plain = join-parts p (t ∷ []) t (plain_root t plain) (parts-IsPlain t plain)

  relative_below : (p : FilePath) → relative_to s.base (s.base ++ p) ≡ some (slashed p)
  relative_below p = rw (is_within-append s.base p, drop-length s.base p) refl

  module _ (hex : List ℕ) (file : Upload) (words : all is_word hex ≡ true) where
    name_of-IsPlain : IsPlain (name_of hex file)
    name_of-IsPlain = sanitize_filename-IsPlain hex (or_unnamed file.filename) words

    abbrev pub saved : List ℕ → Files → Option (List ℕ × Files)
    saved directory files =
        if is_too_large s file
        then none
        else some (
          stored_name directory (name_of hex file),
          write (s.base ++ place directory (name_of hex file)) file.content files,
        )

    save_top : (files : Files) → save s hex file [] files ≡ saved [] files
    unfolding save save_in eq_codes
    save_top files =
        rw
          (
            join_plain s.base (name_of hex file) name_of-IsPlain,
            relative_below ((name_of hex file) ∷ []),
            jail_plain (name_of hex file) name_of-IsPlain,
          )
          refl

    save_below :
        (c : ℕ) (d : List ℕ) (files : Files)
        → is_directory_name (c ∷ d) ≡ true
        → save s hex file (c ∷ d) files ≡ saved (c ∷ d) files
    unfolding save save_in eq_codes
    save_below c d files h =
        let plain = is_directory_name-IsPlain (c ∷ d) h in
        rw
          (
            h,
            jail_plain (c ∷ d) plain,
            join_plain (s.base ++ (c ∷ d) ∷ []) (name_of hex file) name_of-IsPlain,
            append_assoc s.base ((c ∷ d) ∷ []) ((name_of hex file) ∷ []),
            relative_below ((c ∷ d) ∷ (name_of hex file) ∷ []),
            jail_slash (c ∷ d) (name_of hex file) plain name_of-IsPlain,
          )
          refl

    jail_name :
        (directory : List ℕ)
        → (is_empty directory || is_directory_name directory) ≡ true
        → resolve_within_jail s (stored_name directory (name_of hex file))
          ≡ some (s.base ++ place directory (name_of hex file))
    unfolding eq_codes
    jail_name [] h = jail_plain (name_of hex file) name_of-IsPlain
    jail_name (c ∷ d) h =
        jail_slash (c ∷ d) (name_of hex file) (is_directory_name-IsPlain (c ∷ d) h) name_of-IsPlain

    save_any :
        (directory : List ℕ) (files : Files)
        → (is_empty directory || is_directory_name directory) ≡ true
        → save s hex file directory files ≡ saved directory files
    unfolding eq_codes
    save_any [] files h = save_top files
    save_any (c ∷ d) files h = save_below c d files h

    -- On a storage whose directory is resolved, with a uuid of word characters and a directory name
    -- that is empty or allowed: unless it is too large, a file under any name is saved right below
    -- the directory, and the path given out leads there. Deleting by this path then takes away this
    -- file and no other.
    pub delete-save :
        (directory : List ℕ) (files : Files)
        → (is_empty directory || is_directory_name directory) ≡ true
        → (save s hex file directory files ≡ (
            if is_too_large s file
            then none
            else some (
              stored_name directory (name_of hex file),
              write (s.base ++ place directory (name_of hex file)) file.content files,
            )))
          × (left : Files) × (delete s
                (stored_name directory (name_of hex file))
                (write (s.base ++ place directory (name_of hex file)) file.content files)
              ≡ some left)
          × ((p : FilePath)
              → left p ≡ (
                  if eq_path p (s.base ++ place directory (name_of hex file))
                  then none
                  else files p))
    unfolding delete
    delete-save directory files allowed = (
      save_any directory files allowed,
      remove target (write target file.content files),
      rw (jail_name directory allowed, (eq_path_iff target target).1 refl) refl,
      λ p. without (eq_path p target) (files p),
    )
      where
        target : FilePath
        target = s.base ++ place directory (name_of hex file)

        without :
            (b : Bool) (old : Option (List ℕ))
            → (if b then none else (if b then some file.content else old))
              ≡ (if b then none else old)
        without true old = refl
        without false old = refl
