-- ===== src/Fixtures.antt =====
-- Concrete values that the test modules share: an ASCII instance of the Unicode tables, a model with
-- an integer key called `id`, one with a key called `uid`, and three records.
use fastapi_admin_kit.Base.{
  ℕ, ◌+◌, String, Bool, true, false, ◌&&◌, none, some, [], ◌∷◌, map, leb, nat_eq, if◌then◌else◌,
}
use fastapi_admin_kit.Base.Int.{pos}
use fastapi_admin_kit.Base.Dict.{Dict}
use fastapi_admin_kit.Base.Value.{Value, null, int, str}
use fastapi_admin_kit.Base.Text.{Unicode}
use fastapi_admin_kit.Schema.{Field, Schema}
use fastapi_admin_kit.Memory.Query.{Model}

abbrev pub to_lower : ℕ → ℕ
to_lower c = if leb b'A' c && leb c b'Z' then c + 32 else c

abbrev pub ascii : Unicode
ascii = record {
  lower = map to_lower;
  upper = λ s. s;
  is_space = λ c. nat_eq c b' ';
  parse_int = λ s. none;
}

abbrev pub field_of : String → String → Bool → Field
field_of name type key = record {
  name = name;
  type = type;
  primary_key = key;
  auto_increment = key;
  nullable = true;
  unique = false;
  max_length = none;
  default = null;
  server_default = none;
  index = false;
  choices = none;
  description = none;
}

abbrev pub schema_of : String → String → Schema
schema_of table key = record {
  table_name = table;
  fields = field_of key "integer" true ∷ field_of "name" "string" false ∷ [];
  relations = [];
  indexes = [];
  description = none;
  verbose_name = none;
  verbose_name_plural = none;
}

abbrev pub model_of : String → String → Model
model_of table key = record {
  class_name = table;
  tablename = some table;
  schema = some (schema_of table key);
  columns = [];
  to_text = none;
}

abbrev pub product : Model
product = model_of "products" "id"

abbrev pub ticket : Model
ticket = model_of "tickets" "uid"

abbrev pub pear : Dict Value
pear = ("id", int (pos 1)) ∷ ("name", str "Pear") ∷ []

abbrev pub fig : Dict Value
fig = ("id", int (pos 2)) ∷ ("name", str "Fig") ∷ []

abbrev pub plum : Dict Value
plum = ("id", int (pos 3)) ∷ ("name", null) ∷ []
