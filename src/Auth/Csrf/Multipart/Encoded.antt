-- ===== src/Auth/Csrf/Multipart/Encoded.antt =====
-- Bodies as browsers write them are read back, fastapi_admin_kit/auth/csrf.py.
use fastapi_admin_kit.Base.{
  ℕ, ◌-◌, nat_eq, Bool, true, false, not, ◌&&◌, Option, none, some, List, [], ◌∷◌, ◌++◌, length,
  find, all, ◌≡◌, refl, ap, ◌∙◌, arith, if◌then◌else◌,
}
use mathlib.Core.List.{append_assoc}
use fastapi_admin_kit.Base.Text.{eq_codes, starts_with, is_infix, push}
use fastapi_admin_kit.Auth.Csrf.Multipart.{
  split_from, break_at, crlf, blank_line, dashes, drop_crlf, part_value, first_value,
}

-- No character of the text is `d`.
abbrev pub lacks : ℕ → List ℕ → Bool
lacks d s = all (λ c. not (nat_eq c d)) s

-- A text without `d` stands in front exactly if it stands before the first `d`.
starts_with-lacks :
    (d : ℕ) (p y z : List ℕ) → lacks d p ≡ true → starts_with p (y ++ d ∷ z) ≡ starts_with p y
unfolding starts_with
starts_with-lacks d [] y z h = ground arith
starts_with-lacks d (q ∷ p) [] z h = ground arith
starts_with-lacks d (q ∷ p) (c ∷ y) z h = ground (arith, starts_with-lacks d p y z)

starts_with-append : (p z : List ℕ) → starts_with p (p ++ z) ≡ true
unfolding starts_with
starts_with-append [] z = ground arith
starts_with-append (q ∷ p) z = ground (arith, starts_with-append p z)

split_from-skip : (p a z : List ℕ) → split_from p (length a) (a ++ z) ≡ split_from p 0 z
unfolding split_from
split_from-skip p [] z = refl
split_from-skip p (c ∷ a) z = split_from-skip p a z

split_from-delimiter :
    (q : ℕ) (p z : List ℕ) → split_from (q ∷ p) 0 ((q ∷ p) ++ z) ≡ [] ∷ split_from (q ∷ p) 0 z
unfolding split_from
split_from-delimiter q p z =
    let here = starts_with-append (q ∷ p) z in
    let size : length (q ∷ p) - 1 ≡ length p = omega arith in
    rw (here, size, split_from-skip (q ∷ p) p z) refl

split_from-out :
    (p : List ℕ) (c : ℕ) (s : List ℕ)
    → starts_with p (c ∷ s) ≡ false
    → split_from p 0 (c ∷ s) ≡ push c (split_from p 0 s)
unfolding split_from
split_from-out p c s h = rw h refl

starts_with_nil : (q : ℕ) (p : List ℕ) → starts_with (q ∷ p) [] ≡ false
unfolding starts_with
starts_with_nil q p = refl

not_infix :
    (p : List ℕ) (c : ℕ) (s : List ℕ)
    → is_infix p (c ∷ s) ≡ false
    → (starts_with p (c ∷ s) ≡ false) × (is_infix p s ≡ false)
unfolding is_infix
not_infix p c s h = ground arith

-- A part that ends with a line feed and does not hold the delimiter is cut off there.
split_from-part :
    (q : ℕ) (p x z : List ℕ)
    → lacks 10 (q ∷ p) ≡ true
    → is_infix (q ∷ p) x ≡ false
    → split_from (q ∷ p) 0 (x ++ 10 ∷ ((q ∷ p) ++ z)) ≡ (x ++ 10 ∷ []) ∷ split_from (q ∷ p) 0 z
split_from-part q p [] z no_lf no_p =
    split_from-out (q ∷ p) 10 ((q ∷ p) ++ z)
      (starts_with-lacks 10 (q ∷ p) [] ((q ∷ p) ++ z) no_lf ∙ starts_with_nil q p)
    ∙ ap (push 10) (split_from-delimiter q p z)
split_from-part q p (c ∷ x) z no_lf no_p =
    let (out, later) = not_infix (q ∷ p) c x no_p in
    split_from-out (q ∷ p) c (x ++ 10 ∷ ((q ∷ p) ++ z))
      (starts_with-lacks 10 (q ∷ p) (c ∷ x) ((q ∷ p) ++ z) no_lf ∙ out)
    ∙ ap (push c) (split_from-part q p x z no_lf later)

-- The value of a field as it is sent: the line of its header and its bytes.
pub record Sent : Type 0 where
  pub header : List ℕ
  pub value : List ℕ

-- One part up to its last line feed, and the whole body.
abbrev pub part_of : Sent → List ℕ
part_of f = 13 ∷ 10 ∷ (f.header ++ 13 ∷ 10 ∷ 13 ∷ 10 ∷ (f.value ++ 13 ∷ []))

abbrev pub parts_of : List ℕ → List Sent → List ℕ
parts_of p [] = dashes ++ crlf
parts_of p (f ∷ fs) = part_of f ++ 10 ∷ (p ++ parts_of p fs)

abbrev pub body_of : List ℕ → List Sent → List ℕ
body_of p fs = p ++ parts_of p fs

break_at-out :
    (p : List ℕ) (c : ℕ) (s a b : List ℕ)
    → starts_with p (c ∷ s) ≡ false
    → break_at p s ≡ some (a, b)
    → break_at p (c ∷ s) ≡ some (c ∷ a, b)
unfolding break_at
break_at-out p c s a b out e = rw (out, e) refl

-- A header of one line ends at the first blank line.
break_at-header :
    (h v : List ℕ)
    → lacks 13 h ≡ true
    → break_at blank_line (h ++ 13 ∷ 10 ∷ 13 ∷ 10 ∷ v) ≡ some (h, v)
unfolding break_at starts_with
break_at-header [] v l = refl
break_at-header (c ∷ h) v l = ground (arith, break_at-header h v)

-- A text with a first character, and no carriage return in it.
abbrev pub is_line : List ℕ → Bool
is_line [] = false
is_line (c ∷ s) = lacks 13 (c ∷ s)

break_at-part :
    (h v : List ℕ)
    → is_line h ≡ true
    → break_at blank_line (13 ∷ 10 ∷ (h ++ 13 ∷ 10 ∷ 13 ∷ 10 ∷ v)) ≡ some (13 ∷ 10 ∷ h, v)
unfolding starts_with
break_at-part [] v l = cc
break_at-part (c ∷ h) v l =
    break_at-out blank_line 13 (10 ∷ ((c ∷ h) ++ 13 ∷ 10 ∷ 13 ∷ 10 ∷ v)) (10 ∷ c ∷ h) v
      (ground (arith, l))
      (break_at-out blank_line 10 ((c ∷ h) ++ 13 ∷ 10 ∷ 13 ∷ 10 ∷ v) (c ∷ h) v (ground (arith, l))
        (break_at-header (c ∷ h) v l))

drop_crlf-append : (v : List ℕ) → drop_crlf (v ++ 13 ∷ 10 ∷ []) ≡ v
unfolding eq_codes
drop_crlf-append [] = refl
drop_crlf-append (c ∷ []) = ground arith
drop_crlf-append (c ∷ d ∷ []) = ground arith
drop_crlf-append (c ∷ d ∷ e ∷ v) = ground (arith, drop_crlf-append (d ∷ e ∷ v))

abbrev pub names : List ℕ → Sent → Bool
names marker f = is_infix marker (13 ∷ 10 ∷ f.header)

-- A field that can be told apart in a body: one header line, and no delimiter in its part.
abbrev pub is_sound : List ℕ → Sent → Bool
is_sound p f = is_line f.header && not (is_infix p (part_of f))

append_lf :
    (h v : List ℕ)
    → (13 ∷ 10 ∷ (h ++ 13 ∷ 10 ∷ 13 ∷ 10 ∷ (v ++ 13 ∷ []))) ++ 10 ∷ []
      ≡ 13 ∷ 10 ∷ (h ++ 13 ∷ 10 ∷ 13 ∷ 10 ∷ (v ++ 13 ∷ 10 ∷ []))
append_lf h v = simp append_assoc

part_value-part_of :
    (marker : List ℕ) (f : Sent)
    → is_line f.header ≡ true
    → part_value marker (part_of f ++ 10 ∷ []) ≡ (if names marker f then some f.value else none)
unfolding part_value starts_with eq_codes
part_value-part_of marker f l =
    rw
      (
        append_lf f.header f.value,
        break_at-part f.header (f.value ++ 13 ∷ 10 ∷ []) l,
        drop_crlf-append f.value,
      )
      refl

last_part :
    (b : ℕ) (bs marker : List ℕ)
    → lacks 13 (b ∷ bs) ≡ true
    → first_value marker (split_from (dashes ++ b ∷ bs) 0 (dashes ++ crlf)) ≡ none
unfolding first_value split_from part_value starts_with eq_codes
last_part b bs marker h = let other : nat_eq b 13 ≡ false = ground (arith, h) in rw other refl

-- What is found among the parts, when a field is split off.
first_value-part :
    (marker part : List ℕ) (parts : List (List ℕ)) (o : Option (List ℕ))
    → part_value marker part ≡ o
    → first_value marker (part ∷ parts)
      ≡ elim o [ some value ↦ some value | none ↦ first_value marker parts ]
unfolding first_value
first_value-part marker part parts o e =
    ap
      (λ v. elim v as (λ _. Option (List ℕ)) [
        | some value ↦ some value
        | none ↦ first_value marker parts
      ])
      e

part_value_of_empty : (marker : List ℕ) → part_value marker [] ≡ none
unfolding part_value eq_codes
part_value_of_empty marker = refl

abbrev sent_value : Option Sent → Option (List ℕ)
sent_value none = none
sent_value (some f) = some f.value

first_value-parts_of :
    (b : ℕ) (bs marker : List ℕ) (fs : List Sent)
    → lacks 10 (dashes ++ b ∷ bs) ≡ true
    → lacks 13 (b ∷ bs) ≡ true
    → all (is_sound (dashes ++ b ∷ bs)) fs ≡ true
    → first_value marker (split_from (dashes ++ b ∷ bs) 0 (parts_of (dashes ++ b ∷ bs) fs))
      ≡ sent_value (find (names marker) fs)
first_value-parts_of b bs marker [] lf cr sound = last_part b bs marker cr
first_value-parts_of b bs marker (f ∷ fs) lf cr sound =
    let here : is_sound (dashes ++ b ∷ bs) f ≡ true = ground (arith, sound) in
    let line : is_line f.header ≡ true = ground (arith, here) in
    let outside : is_infix (dashes ++ b ∷ bs) (part_of f) ≡ false = ground (arith, here) in
    let cut =
      split_from-part b'-' (b'-' ∷ b ∷ bs) (part_of f) (parts_of (dashes ++ b ∷ bs) fs) lf
        outside in
    let found =
      first_value-part marker (part_of f ++ 10 ∷ [])
        (split_from (dashes ++ b ∷ bs) 0 (parts_of (dashes ++ b ∷ bs) fs))
        (if names marker f then some f.value else none) (part_value-part_of marker f line) in
    let later = first_value-parts_of b bs marker fs lf cr (ground (arith, sound)) in
    ap (first_value marker) cut ∙ found ∙ pick (names marker f) later
  where
    pick :
        (named : Bool) {rest : Option (List ℕ)}
        → rest ≡ sent_value (find (names marker) fs)
        → elim (if named then some f.value else none) as (λ _. Option (List ℕ)) [
          | some value ↦ some value
          | none ↦ rest
        ]
          ≡ sent_value (elim named [ true ↦ some f | false ↦ find (names marker) fs ])
    pick true e = refl
    pick false e = e

-- Of a body that a browser writes, the value is the one of the first field whose header line names
-- it, and there is none if no header line does. The header of each field is one line, no part holds
-- the delimiter, and the boundary holds no line break.
pub first_value-body_of :
    (b : ℕ) (bs marker : List ℕ) (fs : List Sent)
    → lacks 10 (b ∷ bs) ≡ true
    → lacks 13 (b ∷ bs) ≡ true
    → all (is_sound (dashes ++ b ∷ bs)) fs ≡ true
    → first_value marker (split_from (dashes ++ b ∷ bs) 0 (body_of (dashes ++ b ∷ bs) fs))
      ≡ sent_value (find (names marker) fs)
first_value-body_of b bs marker fs lf cr sound =
    ap (first_value marker)
      (split_from-delimiter b'-' (b'-' ∷ b ∷ bs) (parts_of (dashes ++ b ∷ bs) fs))
    ∙ first_value-part marker [] (split_from (dashes ++ b ∷ bs) 0 (parts_of (dashes ++ b ∷ bs) fs))
        none (part_value_of_empty marker)
    ∙ first_value-parts_of b bs marker fs (ground (arith, lf)) cr sound
