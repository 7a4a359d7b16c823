-- ===== src/Saver/Tests.antt =====
-- A run of fastapi_admin_kit/views/model_saver.py: a relationship writes its column, also where the
-- column is read-only.
use fastapi_admin_kit.Base.{String, List, [], ◌∷◌, ◌≡◌, refl}
use fastapi_admin_kit.Base.Dict.{Dict}
use fastapi_admin_kit.Saver.{
  Relation, collect_fks, apply_field, apply_fields, apply_parsed, extract_each, extract_m2m,
}

abbrev relations : List Relation
relations =
    record {
      name = "user";
      direction = "MANYTOONE";
      target = "users";
      local_columns = "user_id" ∷ [];
    }
    ∷ record { name = "tags"; direction = "MANYTOMANY"; target = "tags"; local_columns = "id" ∷ [] }
    ∷ []

abbrev columns : List String
columns = "id" ∷ "title" ∷ "user_id" ∷ []

abbrev sent : Dict String
sent = ("id", "9") ∷ ("user", "5") ∷ ("title", "new") ∷ ("admin", "1") ∷ []

abbrev object : Dict String
object = ("id", "1") ∷ ("title", "old") ∷ ("user_id", "4") ∷ []

column_written :
    apply_parsed String ("id" ∷ "user_id" ∷ []) columns relations sent object
    ≡ ("id", "1") ∷ ("title", "new") ∷ ("user_id", "5") ∷ []
unfolding apply_parsed apply_fields apply_field collect_fks
column_written = refl

tags_taken :
    extract_m2m String relations (("title", "new") ∷ ("tags", "3") ∷ [])
    ≡ ((("tags", "3") ∷ []), (("title", "new") ∷ []))
unfolding extract_m2m extract_each
tags_taken = refl
