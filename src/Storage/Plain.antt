-- ===== src/Storage/Plain.antt =====
-- Names that `pathlib` takes as they are, fastapi_admin_kit/storage/.
use mathlib.Core.List.{reverse-cons, append_assoc, append-nil}
use fastapi_admin_kit.Base.{
  ℕ, zero, suc, Bool, true, false, not, ◌&&◌, none, List, [], ◌∷◌, ◌++◌, reverse, all, all-append,
  all-weaken, take, drop, length, nat_eq, All, ◌≡◌, refl, sym, ap, ◌∙◌, arith,
}
use fastapi_admin_kit.Base.Text.{eq_codes, starts_with, split, split-append, eq_codes_iff}
use fastapi_admin_kit.Storage.Paths.{
  FilePath, is_part, parts, root_of, is_up, walk, resolve, is_within, last_part,
}
use fastapi_admin_kit.Storage.Local.{
  clean, or_unnamed, sanitize_filename, is_word, is_words, is_directory_name, is_invalid,
}

-- No character that ends a name or a path.
abbrev pub is_harmless : ℕ → Bool
is_harmless c = not (nat_eq c 0) && (not (nat_eq c b'/') && not (nat_eq c b'\\'))

abbrev pub starts_word : List ℕ → Bool
starts_word [] = false
starts_word (c ∷ s) = is_word c

abbrev pub IsPlain : List ℕ → Type 0
IsPlain s = (starts_word s ≡ true) × (all is_harmless s ≡ true)

-- A part of a resolved path.
abbrev pub IsResolved : FilePath → Type 0
IsResolved p = All (λ s. is_up s ≡ false) p

word_harmless : (c : ℕ) → is_word c ≡ true → is_harmless c ≡ true
word_harmless c h = ground (arith, h)

split_harmless : (s : List ℕ) → all is_harmless s ≡ true → split b'/' s ≡ s ∷ []
unfolding split
split_harmless [] h = refl
split_harmless (c ∷ s) h = let ih = split_harmless s (ground (arith, h)) in ground (arith, h, ih)

plain_part : (s : List ℕ) → IsPlain s → is_part s ≡ true
unfolding eq_codes
plain_part [] (w, h) = cc
plain_part (c ∷ s) (w, h) = ground (arith, w)

pub plain_not_up : (s : List ℕ) → IsPlain s → is_up s ≡ false
unfolding eq_codes
plain_not_up [] (w, h) = cc
plain_not_up (c ∷ s) (w, h) = ground (arith, w)

pub parts-IsPlain : (s : List ℕ) → IsPlain s → parts s ≡ s ∷ []
unfolding parts
parts-IsPlain s (w, h) = rw (split_harmless s h) (ground (arith, plain_part s (w, h)))

pub parts-slash : (s t : List ℕ) → IsPlain s → IsPlain t → parts (s ++ b'/' ∷ t) ≡ s ∷ t ∷ []
unfolding parts
parts-slash s t (w, h) (v, k) =
    rw (split-append b'/' s t, split_harmless s h, split_harmless t k)
      (ground (arith, plain_part s (w, h), plain_part t (v, k)))

pub root_of-none : (s t : List ℕ) → starts_word s ≡ true → root_of (s ++ t) ≡ none
unfolding root_of starts_with
root_of-none [] t w = cc
root_of-none (c ∷ s) t w =
    let other : nat_eq b'/' c ≡ false = ground (arith, w) in ground (arith, other)

walk-append : (up p : FilePath) → IsResolved p → walk up p ≡ reverse up ++ p
unfolding walk
walk-append up [] h = sym (append-nil (reverse up))
walk-append up (s ∷ p) (plain, h) = rw plain (
    walk-append (s ∷ up) p h
    ∙ ap (λ r. r ++ p) (reverse-cons s up)
    ∙ append_assoc (reverse up) (s ∷ []) p)

pub resolve-IsResolved : (p : FilePath) → IsResolved p → resolve p ≡ p
unfolding resolve
resolve-IsResolved p h = walk-append [] p h

eq_codes_self : (s : List ℕ) → eq_codes s s ≡ true
eq_codes_self s = (eq_codes_iff s s).1 refl

pub is_within-append : (base p : FilePath) → is_within base (base ++ p) ≡ true
unfolding is_within
is_within-append [] p = refl
is_within-append (s ∷ base) p = ground (arith, eq_codes_self s, is_within-append base p)

pub drop-length : (base p : FilePath) → drop (length base) (base ++ p) ≡ p
drop-length [] p = refl
drop-length (s ∷ base) p = drop-length base p

pub is_invalid-all : (s : List ℕ) → all is_harmless s ≡ true → is_invalid s ≡ false
is_invalid-all [] h = refl
is_invalid-all (c ∷ s) h = let ih = is_invalid-all s (ground (arith, h)) in ground (arith, h, ih)

clean_harmless : (s : List ℕ) → all is_harmless (clean s) ≡ true
clean_harmless [] = refl
clean_harmless (c ∷ s) = ground (arith, clean_harmless s)

take_words : (n : ℕ) (s : List ℕ) → all is_word s ≡ true → all is_word (take n s) ≡ true
take_words zero s h = refl
take_words (suc n) [] h = refl
take_words (suc n) (c ∷ s) h = let ih = take_words n s (ground (arith, h)) in ground (arith, h, ih)

prefixed-IsPlain :
    (h s : List ℕ) → all is_word h ≡ true → all is_harmless s ≡ true → IsPlain (h ++ b'_' ∷ s)
prefixed-IsPlain h s w k = (first h w, rest)
  where
    first : (h : List ℕ) → all is_word h ≡ true → starts_word (h ++ b'_' ∷ s) ≡ true
    first [] w = refl
    first (c ∷ h) w = ground (arith, w)

    rest : all is_harmless (h ++ b'_' ∷ s) ≡ true
    rest =
        let a = all-weaken is_word is_harmless h (λ c. word_harmless c) w in
        all-append is_harmless h (b'_' ∷ s) ∙ ground (arith, a, k)

-- A sanitized name is plain whatever was uploaded.
pub sanitize_filename-IsPlain :
    (hex filename : List ℕ) → all is_word hex ≡ true → IsPlain (sanitize_filename hex filename)
unfolding sanitize_filename
sanitize_filename-IsPlain hex filename w =
    prefixed-IsPlain (take 12 hex) (clean (or_unnamed (last_part (parts filename))))
      (take_words 12 hex w) (clean_harmless (or_unnamed (last_part (parts filename))))

words_harmless : (s : List ℕ) → is_words s ≡ true → all is_harmless s ≡ true
unfolding eq_codes
words_harmless [] h = refl
words_harmless (c ∷ []) h = ground (arith, h)
words_harmless (c ∷ (d ∷ s)) h =
    let ih = words_harmless (d ∷ s) (ground (arith, h)) in ground (arith, h, ih)

pub is_directory_name-IsPlain : (s : List ℕ) → is_directory_name s ≡ true → IsPlain s
unfolding is_directory_name
is_directory_name-IsPlain [] h = cc
is_directory_name-IsPlain (c ∷ s) h =
    let w : is_word c ≡ true = ground (arith, h) in
    let k = words_harmless s (ground (arith, h)) in
    let here = word_harmless c w in (w, ground (arith, here, k))
