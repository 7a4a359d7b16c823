-- ===== src/Filters.antt =====
-- The reading of filter parameters, fastapi_admin_kit/filters/lookups.py. A query is the function that
-- `query_params.get(key, "")` is.
pub mod Lookups
mod Tests
use Prim.Native.String.{◌++◌ as append}
use fastapi_admin_kit.Base.{
  String, Bool, true, false, Option, none, some, List, [], ◌∷◌, is_truthy, if◌then◌else◌,
}
use fastapi_admin_kit.Base.Dict.{Dict, lookup, insert}

abbrev pub Query : Type 0
Query = String → String

-- `LOOKUP_SUFFIXES`
abbrev pub lookup_suffixes : Dict String
lookup_suffixes =
    ("exact", "")
    ∷ ("icontains", "__icontains")
    ∷ ("startswith", "__startswith")
    ∷ ("endswith", "__endswith")
    ∷ ("gt", "__gt")
    ∷ ("gte", "__gte")
    ∷ ("lt", "__lt")
    ∷ ("lte", "__lte")
    ∷ ("range", "__range")
    ∷ ("in", "__in")
    ∷ ("from", "__from")
    ∷ ("to", "__to")
    ∷ []

-- `None`, the text of an exact match, or a dict from lookups to texts.
pub data FilterValue : Type 0 where
  no_value : FilterValue
  exact : String → FilterValue
  parts : Dict String → FilterValue

-- A dict with a text that is set if it is not empty.
abbrev pub insert_given : String → String → Dict String → Dict String
insert_given key raw d = if is_truthy raw then insert key raw d else d

-- The loop: `parts` and `active`.
unfoldable pub read_lookups :
    Query → String → Dict String → Dict String → Dict String → Dict String × Dict String
read_lookups get field [] found active = (found, active)
read_lookups get field ((name, suffix) ∷ table) found active =
    let raw = get (append field suffix) in
    read_lookups get field table (insert_given name raw found)
      (insert_given (append field suffix) raw active)

-- `"exact" in parts and len(parts) == 1`, and the text of it.
abbrev pub only_exact : Dict String → Option String
only_exact ((k, v) ∷ []) = lookup "exact" ((k, v) ∷ [])
only_exact other = none

unfoldable pub value_of : Dict String → FilterValue
value_of [] = no_value
value_of (p ∷ found) = elim (only_exact (p ∷ found)) [ some v ↦ exact v | none ↦ parts (p ∷ found) ]

unfoldable pub parse_filter_params : Query → String → FilterValue × Dict String
unfolding read_lookups value_of
parse_filter_params get field =
    let (found, active) = read_lookups get field lookup_suffixes [] [] in (value_of found, active)
