-- ===== src/Storage/Paths.antt =====
-- POSIX paths as `pathlib` reads them. An absolute path is the list of its parts; one that starts with
-- exactly two slashes has an empty first part. There are no symbolic links.
use fastapi_admin_kit.Base.{
  ℕ, Bool, true, false, not, ◌&&◌, Option, none, some, List, [], ◌∷◌, ◌++◌, reverse, keep,
  if◌then◌else◌,
}
use fastapi_admin_kit.Base.Text.{eq_codes, starts_with, split}

abbrev pub FilePath : Type 0
FilePath = List (List ℕ)

abbrev pub is_part : List ℕ → Bool
is_part s = not (eq_codes s []) && not (eq_codes s (b'.' ∷ []))

-- The parts of a text, without the empty ones and the dots.
unfoldable pub parts : List ℕ → FilePath
parts text = keep is_part (split b'/' text)

-- What an absolute path stands on, or nothing for a relative one.
unfoldable pub root_of : List ℕ → Option FilePath
root_of text =
    if starts_with (b'/' ∷ b'/' ∷ []) text && not (starts_with (b'/' ∷ b'/' ∷ b'/' ∷ []) text)
    then some ([] ∷ [])
    else (if starts_with (b'/' ∷ []) text then some [] else none)

-- `base / text`
unfoldable pub join : FilePath → List ℕ → FilePath
join base text = elim (root_of text) [ none ↦ base ++ parts text | some root ↦ root ++ parts text ]

-- The parent of a reversed path; the root has none.
abbrev pub parent : FilePath → FilePath
parent [] = []
parent ([] ∷ up) = [] ∷ up
parent ((c ∷ s) ∷ up) = up

abbrev pub is_up : List ℕ → Bool
is_up s = eq_codes s (b'.' ∷ b'.' ∷ [])

unfoldable pub walk : FilePath → FilePath → FilePath
walk up [] = reverse up
walk up (s ∷ p) = if is_up s then walk (parent up) p else walk (s ∷ up) p

-- `resolve()`
unfoldable pub resolve : FilePath → FilePath
resolve p = walk [] p

-- `p.is_relative_to(base)`
unfoldable pub is_within : FilePath → FilePath → Bool
is_within [] p = true
is_within (b ∷ base) [] = false
is_within (b ∷ base) (s ∷ p) = eq_codes b s && is_within base p

unfoldable pub eq_path : FilePath → FilePath → Bool
eq_path [] [] = true
eq_path (s ∷ p) (t ∷ q) = eq_codes s t && eq_path p q
eq_path _ _ = false

-- `PurePosixPath(text).name`
unfoldable pub last_part : FilePath → List ℕ
last_part [] = []
last_part (s ∷ []) = s
last_part (_ ∷ (s ∷ p)) = last_part (s ∷ p)
