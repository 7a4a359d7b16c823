-- ===== src/Filters/Tests.antt =====
-- Queries that fastapi_admin_kit/filters/lookups.py reads.
use fastapi_admin_kit.Base.{none, [], ◌∷◌, ◌≡◌, refl, if◌then◌else◌, ◌==◌}
use fastapi_admin_kit.Base.Dict.{lookup}
use fastapi_admin_kit.Filters.{Query, parts, exact, parse_filter_params, read_lookups, value_of}
use fastapi_admin_kit.Filters.Lookups.{IsReading, is_of_field, given, parse_filter_params_lem}

abbrev query : Query
query key =
    if key == "price__gte"
    then "100"
    else if key == "price__lt"
    then "200"
    else if key == "name"
    then "fig"
    else ""

price_read : parse_filter_params query "price" ≡ (
  parts (("gte", "100") ∷ ("lt", "200") ∷ []),
  ("price__gte", "100") ∷ ("price__lt", "200") ∷ [],
)
unfolding parse_filter_params read_lookups value_of
price_read = refl

name_read : parse_filter_params query "name" ≡ (exact "fig", ("name", "fig") ∷ [])
unfolding parse_filter_params read_lookups value_of
name_read = refl

parse_filter_params_lem_example :
    IsReading query "price" (parse_filter_params query "price").0
    × (lookup "price__lt" (parse_filter_params query "price").1
        ≡ (if is_of_field "price" "price__lt" then given (query "price__lt") else none))
parse_filter_params_lem_example = parse_filter_params_lem query "price" "price__lt"
