-- ===== src/Memory/Search.antt =====
-- The four shapes of an `ilike` pattern in `_matches` of fastapi_admin_kit/backends/memory.py.
use mathlib.Core.List.{reverse-append, reverse-cons, reverse-reverse}
use fastapi_admin_kit.Base.{
  ℕ, ◌≡◌, refl, sym, ap, ◌∙◌, Bool, true, false, not, ◌&&◌, ◌||◌, all, nat_eq, Bool-cases, inl, inr,
  if◌then◌else◌, List, [], ◌∷◌, ◌++◌, reverse, arith, All, All-append, ◌↔◌,
}
use fastapi_admin_kit.Base.Text.{
  eq_codes, eq_codes_iff, starts_with, ends_with, lstrip, strip, starts_with_iff, is_infix_iff,
}
use fastapi_admin_kit.Memory.Match.{is_percent, matches_ilike}

abbrev pub NoPercent : List ℕ → Type 0
NoPercent s = All (λ c. is_percent c ≡ false) s

abbrev pub before_percent : Bool → List ℕ → List ℕ
before_percent true s = s ++ b'%' ∷ []
before_percent false s = s

-- The pattern of a core, with a `%` in front and behind as the flags say.
abbrev pub wrap : Bool → Bool → List ℕ → List ℕ
wrap true ends core = b'%' ∷ before_percent ends core
wrap false ends core = before_percent ends core

-- SQL's `LIKE` without an escape character: `%` stands for any text, and `_` for any one character.
abbrev pub is_underscore : ℕ → Bool
is_underscore c = nat_eq c b'_'

abbrev pub some_suffix : (List ℕ → Bool) → List ℕ → Bool
some_suffix fits [] = fits []
some_suffix fits (x ∷ hay) = fits (x ∷ hay) || some_suffix fits hay

abbrev pub one_then : ℕ → (List ℕ → Bool) → List ℕ → Bool
one_then c fits [] = false
one_then c fits (x ∷ hay) = (is_underscore c || nat_eq c x) && fits hay

abbrev pub is_nothing : List ℕ → Bool
is_nothing [] = true
is_nothing (x ∷ hay) = false

unfoldable pub like : List ℕ → List ℕ → Bool
like [] hay = is_nothing hay
like (c ∷ pattern) hay =
    if is_percent c then some_suffix (like pattern) hay else one_then c (like pattern) hay

-- A text without wildcards, nor a backslash, by which some databases escape them.
abbrev pub is_literal : ℕ → Bool
is_literal c = not (is_percent c) && (not (is_underscore c) && not (nat_eq c b'\\'))

-- What the shape of a pattern means.
abbrev Shape : Bool → Bool → List ℕ → List ℕ → Type 0
Shape true true core hay = (prefix suffix : List ℕ) × (hay ≡ prefix ++ (core ++ suffix))
Shape true false core hay = (prefix : List ℕ) × (hay ≡ prefix ++ core)
Shape false true core hay = (suffix : List ℕ) × (hay ≡ core ++ suffix)
Shape false false core hay = hay ≡ core

NoPercent-reverse : (s : List ℕ) → NoPercent s → NoPercent (reverse s)
NoPercent-reverse [] h = tt
NoPercent-reverse (c ∷ s) (p, h) =
    rw (reverse-cons c s) (All-append _ (reverse s) (c ∷ []) (NoPercent-reverse s h) (p, tt))

lstrip_of_NoPercent : (s : List ℕ) → NoPercent s → lstrip is_percent s ≡ s
unfolding lstrip
lstrip_of_NoPercent [] h = refl
lstrip_of_NoPercent (c ∷ s) (p, h) = rw (p, lstrip)

starts_percent_of_NoPercent : (s : List ℕ) → NoPercent s → starts_with (b'%' ∷ []) s ≡ false
unfolding starts_with
starts_percent_of_NoPercent [] h = refl
starts_percent_of_NoPercent (c ∷ s) (p, h) = ground arith

starts_percent_concat :
    (v : List ℕ) (c : ℕ) (t : List ℕ)
    → NoPercent (v ++ c ∷ [])
    → starts_with (b'%' ∷ []) ((v ++ c ∷ []) ++ t) ≡ false
unfolding starts_with
starts_percent_concat [] c t h = ground arith
starts_percent_concat (x ∷ v) c t h = ground arith

reverse-concat : (s : List ℕ) (c : ℕ) → reverse (s ++ c ∷ []) ≡ c ∷ reverse s
reverse-concat s c = reverse-append s (c ∷ [])

ends_with_iff : (p s : List ℕ) → (ends_with p s ≡ true) ↔ ((prefix : List ℕ) × (s ≡ prefix ++ p))
unfolding ends_with
ends_with_iff p s = (
  λ h.
      let (t, e) = (starts_with_iff (reverse p) (reverse s)).0 h in
      (
        reverse t,
        sym (reverse-reverse s)
            ∙ ap reverse e
            ∙ reverse-append (reverse p) t
            ∙ ap (λ (w : List ℕ). reverse t ++ w) (reverse-reverse p),
      ),
  λ h.
      (starts_with_iff (reverse p) (reverse s)).1
        (reverse h.0, ap reverse h.1 ∙ reverse-append h.0 p),
)

module _ (c : ℕ) (w : List ℕ) (plain : NoPercent (c ∷ w)) where
  starts_of_wrap : (a b : Bool) → starts_with (b'%' ∷ []) (wrap a b (c ∷ w)) ≡ a
  unfolding starts_with
  starts_of_wrap true b = refl
  starts_of_wrap false true = ground (arith, plain)
  starts_of_wrap false false = ground (arith, plain)

  ends_of_wrap : (a b : Bool) → ends_with (b'%' ∷ []) (wrap a b (c ∷ w)) ≡ b
  unfolding ends_with starts_with
  ends_of_wrap true true = rw (reverse-concat (b'%' ∷ c ∷ w) b'%')
  ends_of_wrap false true = rw (reverse-concat (c ∷ w) b'%')
  ends_of_wrap false false = starts_percent_of_NoPercent _ (NoPercent-reverse (c ∷ w) plain)
  ends_of_wrap true false =
      rw (reverse-cons b'%' (c ∷ w), reverse-cons c w)
        (starts_percent_concat (reverse w) c (b'%' ∷ [])
          (rw (reverse-cons c w) at (NoPercent-reverse (c ∷ w) plain)))

  lstrip-wrap : (a b : Bool) → lstrip is_percent (wrap a b (c ∷ w)) ≡ before_percent b (c ∷ w)
  unfolding lstrip
  lstrip-wrap true true = rw (plain.0, lstrip)
  lstrip-wrap true false = rw (plain.0, lstrip)
  lstrip-wrap false true = rw (plain.0, lstrip)
  lstrip-wrap false false = rw (plain.0, lstrip)

  lstrip_reversed :
      (b : Bool) → lstrip is_percent (reverse (before_percent b (c ∷ w))) ≡ reverse (c ∷ w)
  unfolding lstrip
  lstrip_reversed true =
      rw (reverse-concat (c ∷ w) b'%') (lstrip_of_NoPercent _ (NoPercent-reverse (c ∷ w) plain))
  lstrip_reversed false = lstrip_of_NoPercent _ (NoPercent-reverse (c ∷ w) plain)

  strip-wrap : (a b : Bool) → strip is_percent (wrap a b (c ∷ w)) ≡ c ∷ w
  unfolding strip
  strip-wrap a b = rw (lstrip-wrap a b, lstrip_reversed b) (reverse-reverse (c ∷ w))

  matches_ilike-Shape :
      (starts ends : Bool) (hay : List ℕ)
      → (matches_ilike (wrap starts ends (c ∷ w)) hay ≡ true) ↔ Shape starts ends (c ∷ w) hay
  unfolding matches_ilike
  matches_ilike-Shape true true hay =
      rw (starts_of_wrap true true, ends_of_wrap true true, strip-wrap true true)
        (is_infix_iff (c ∷ w) hay)
  matches_ilike-Shape true false hay =
      rw (starts_of_wrap true false, ends_of_wrap true false, strip-wrap true false)
        (ends_with_iff (c ∷ w) hay)
  matches_ilike-Shape false true hay =
      rw (starts_of_wrap false true, ends_of_wrap false true, strip-wrap false true)
        (starts_with_iff (c ∷ w) hay)
  matches_ilike-Shape false false hay =
      rw (starts_of_wrap false false, ends_of_wrap false false, strip-wrap false false)
        (eq_codes_iff hay (c ∷ w))

-- Patterns without wildcards, and the texts that they match.
NoPercent-literal : (s : List ℕ) → all is_literal s ≡ true → NoPercent s
NoPercent-literal [] h = tt
NoPercent-literal (c ∷ s) h = (ground (arith, h), NoPercent-literal s (ground (arith, h)))

like-literal : (s hay : List ℕ) → all is_literal s ≡ true → like s hay ≡ eq_codes hay s
unfolding like eq_codes
like-literal [] [] h = refl
like-literal [] (x ∷ hay) h = refl
like-literal (c ∷ s) [] h = ground (arith, h)
like-literal (c ∷ s) (x ∷ hay) h = ground (arith, h, like-literal s hay (ground (arith, h)))

like-percent : (hay : List ℕ) → like (b'%' ∷ []) hay ≡ true
unfolding like
like-percent [] = refl
like-percent (x ∷ hay) = like-percent hay

like-prefix :
    (s hay : List ℕ) → all is_literal s ≡ true → like (s ++ b'%' ∷ []) hay ≡ starts_with s hay
unfolding like starts_with
like-prefix [] hay h = like-percent hay
like-prefix (c ∷ s) [] h = ground (arith, h)
like-prefix (c ∷ s) (x ∷ hay) h = ground (arith, h, like-prefix s hay (ground (arith, h)))

some_suffix_iff :
    (fits : List ℕ → Bool) (hay : List ℕ)
    → (some_suffix fits hay ≡ true)
      ↔ ((prefix rest : List ℕ) × (hay ≡ prefix ++ rest) × (fits rest ≡ true))
some_suffix_iff fits hay = (forward hay, λ h. backward hay h.0 h.1 h.2 h.3)
  where
    forward :
        (hay : List ℕ)
        → some_suffix fits hay ≡ true
        → (prefix rest : List ℕ) × (hay ≡ prefix ++ rest) × (fits rest ≡ true)
    forward [] h = ([], [], refl, h)
    forward (x ∷ hay) h = elim (Bool-cases (fits (x ∷ hay))) [
      | inl here ↦ ([], x ∷ hay, refl, here)
      | inr later ↦
          let (prefix, rest, e, k) = forward hay (ground (arith, h, later)) in
          (x ∷ prefix, rest, ap (◌∷◌ x) e, k)
    ]

    backward :
        (hay prefix rest : List ℕ)
        → hay ≡ prefix ++ rest
        → fits rest ≡ true
        → some_suffix fits hay ≡ true
    backward [] [] rest e k = ap fits e ∙ k
    backward [] (y ∷ prefix) rest e k = cc
    backward (x ∷ hay) [] rest e k = let here = ap fits e ∙ k in ground (arith, here)
    backward (x ∷ hay) (y ∷ prefix) rest e k =
        let tail : hay ≡ prefix ++ rest = cc in
        let later = backward hay prefix rest tail k in ground (arith, later)

-- What stands for some part behind a `%`.
behind_percent :
    (fits other : List ℕ → Bool) (hay : List ℕ)
    → ((rest : List ℕ) → fits rest ≡ other rest)
    → some_suffix fits hay ≡ some_suffix other hay
behind_percent fits other [] same = same []
behind_percent fits other (x ∷ hay) same =
    ground (arith, same (x ∷ hay), behind_percent fits other hay same)

module _ (c : ℕ) (w : List ℕ) (literal : all is_literal (c ∷ w) ≡ true) where
  like-Shape :
      (starts ends : Bool) (hay : List ℕ)
      → (like (wrap starts ends (c ∷ w)) hay ≡ true) ↔ Shape starts ends (c ∷ w) hay
  unfolding like
  like-Shape true true hay =
      rw
        (behind_percent (like ((c ∷ w) ++ b'%' ∷ [])) (starts_with (c ∷ w)) hay
          (λ rest. like-prefix (c ∷ w) rest literal))
        (
          λ h.
              let (prefix, rest, e, k) = (some_suffix_iff (starts_with (c ∷ w)) hay).0 h in
              let (suffix, f) = (starts_with_iff (c ∷ w) rest).0 k in
              (prefix, suffix, e ∙ ap (λ t. prefix ++ t) f),
          λ h.
              (some_suffix_iff (starts_with (c ∷ w)) hay).1 (
                h.0,
                (c ∷ w) ++ h.1,
                h.2,
                (starts_with_iff (c ∷ w) ((c ∷ w) ++ h.1)).1 (h.1, refl),
              ),
        )
  like-Shape true false hay =
      rw
        (behind_percent (like (c ∷ w)) (λ rest. eq_codes rest (c ∷ w)) hay
          (λ rest. like-literal (c ∷ w) rest literal))
        (
          λ h.
              let (prefix, rest, e, k) =
                (some_suffix_iff (λ rest. eq_codes rest (c ∷ w)) hay).0 h in
              (prefix, e ∙ ap (λ t. prefix ++ t) ((eq_codes_iff rest (c ∷ w)).0 k)),
          λ h.
              (some_suffix_iff (λ rest. eq_codes rest (c ∷ w)) hay).1
                (h.0, c ∷ w, h.1, (eq_codes_iff (c ∷ w) (c ∷ w)).1 refl),
        )
  like-Shape false true hay = rw (like-prefix (c ∷ w) hay literal) (starts_with_iff (c ∷ w) hay)
  like-Shape false false hay = rw (like-literal (c ∷ w) hay literal) (eq_codes_iff hay (c ∷ w))

  -- A pattern made of a non-empty core without wildcards and backslashes, and a `%` in front, behind,
  -- on both sides or nowhere, matches exactly the texts that SQL's `LIKE` matches. (In a core the code
  -- takes `_` for itself, where `LIKE` takes it for any character.)
  pub matches_ilike_iff :
      (starts ends : Bool) (hay : List ℕ)
      → (matches_ilike (wrap starts ends (c ∷ w)) hay ≡ true)
        ↔ (like (wrap starts ends (c ∷ w)) hay ≡ true)
  matches_ilike_iff starts ends hay =
      let plain = NoPercent-literal (c ∷ w) literal in
      let here = matches_ilike-Shape c w plain starts ends hay in
      let there = like-Shape starts ends hay in (λ h. there.1 (here.0 h), λ h. here.1 (there.0 h))
