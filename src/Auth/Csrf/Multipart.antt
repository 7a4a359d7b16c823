-- ===== src/Auth/Csrf/Multipart.antt =====
-- The field that the middleware reads from a multipart body, fastapi_admin_kit/auth/csrf.py.
pub mod Encoded
use fastapi_admin_kit.Base.{
  ℕ, zero, suc, ◌-◌, nat_eq, Bool, true, false, not, ◌&&◌, ◌||◌, Option, none, some, List, [], ◌∷◌,
  ◌++◌, length, drop, codes, if◌then◌else◌,
}
use fastapi_admin_kit.Base.Text.{
  Unicode, eq_codes, starts_with, ends_with, is_infix, strip, split, push,
}

-- `s.split(p)` for a text that is not empty: `k` characters of a separator are still to be skipped.
unfoldable pub split_from : List ℕ → ℕ → List ℕ → List (List ℕ)
split_from p k [] = [] ∷ []
split_from p (suc k) (c ∷ s) = split_from p k s
split_from p zero (c ∷ s) =
    let inside = split_from p (length p - 1) s in
    let outside = split_from p zero s in
    if starts_with p (c ∷ s) then [] ∷ inside else push c outside

-- What stands before and after the first `p`; `none` where `find` says -1.
unfoldable pub break_at : List ℕ → List ℕ → Option (List ℕ × List ℕ)
break_at p [] = none
break_at p (c ∷ s) =
    let rest = break_at p s in
    if starts_with p (c ∷ s)
    then some ([], drop (length p) (c ∷ s))
    else (elim rest [ none ↦ none | some cut ↦ some (c ∷ cut.0, cut.1) ])

abbrev pub crlf : List ℕ
crlf = 13 ∷ 10 ∷ []

abbrev pub blank_line : List ℕ
blank_line = 13 ∷ 10 ∷ 13 ∷ 10 ∷ []

abbrev pub dashes : List ℕ
dashes = codes "--"

-- `if value.endswith(b"\r\n"): value = value[:-2]`
abbrev pub drop_crlf : List ℕ → List ℕ
drop_crlf [] = []
drop_crlf (c ∷ s) = let rest = drop_crlf s in if eq_codes (c ∷ s) crlf then [] else c ∷ rest

-- The parts that hold no field: the text before the first delimiter, and what ends the body.
abbrev pub is_frame : List ℕ → Bool
is_frame part =
    eq_codes part []
    || eq_codes part dashes
    || eq_codes part (dashes ++ crlf)
    || starts_with dashes part

-- The value of a part that has a header and names the field in it.
unfoldable pub part_value : List ℕ → List ℕ → Option (List ℕ)
part_value marker part = if is_frame part then none else (elim (break_at blank_line part) [
  | none ↦ none
  | some cut ↦ if is_infix marker cut.0 then some (drop_crlf cut.1) else none
])

unfoldable pub first_value : List ℕ → List (List ℕ) → Option (List ℕ)
first_value marker [] = none
first_value marker (part ∷ parts) =
    let rest = first_value marker parts in
    elim (part_value marker part) [ some value ↦ some value | none ↦ rest ]

-- `f'name="{field_name}"'`
abbrev pub marker_of : List ℕ → List ℕ
marker_of field_name = codes "name=\"" ++ (field_name ++ b'"' ∷ [])

module _ (u : Unicode) (encode decode : List ℕ → List ℕ) where
  abbrev is_boundary : List ℕ → Bool
  is_boundary piece = starts_with (codes "boundary=") (u.lower piece)

  abbrev is_quote : ℕ → Bool
  is_quote c = nat_eq c b'"'

  -- The boundary that the header names, or nothing.
  unfoldable pub boundary_in : List (List ℕ) → Option (List ℕ)
  boundary_in [] = none
  boundary_in (piece ∷ pieces) =
      let rest = boundary_in pieces in
      let bare = strip u.is_space piece in
      if is_boundary bare then some (encode (strip is_quote (drop 9 bare))) else rest

  abbrev pub map_value : Option (List ℕ) → Option (List ℕ)
  map_value none = none
  map_value (some value) = some (decode value)

  unfoldable pub extract_with : List ℕ → Option (List ℕ) → List ℕ → Option (List ℕ)
  extract_with field_name none body = none
  extract_with field_name (some []) body = none
  extract_with field_name (some (b ∷ bs)) body =
      map_value (first_value (encode (marker_of field_name)) (split_from (dashes ++ b ∷ bs) 0 body))

  -- `_extract_multipart_field`
  unfoldable pub extract_multipart_field : List ℕ → List ℕ → List ℕ → Option (List ℕ)
  extract_multipart_field body content_type field_name =
      extract_with field_name (boundary_in (split b';' content_type)) body
