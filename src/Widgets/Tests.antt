-- ===== src/Widgets/Tests.antt =====
-- Widgets that fastapi_admin_kit/widgets/resolver.py gives.
use fastapi_admin_kit.Base.{String, none, some, List, [], ◌∷◌, ◌≡◌, refl}
use fastapi_admin_kit.Base.Text.{is_infix, starts_with}
use fastapi_admin_kit.Fixtures.{ascii}
use fastapi_admin_kit.Widgets.{
  plain, text_input, ColumnType, WidgetColumn, register_type, register_name, find_pattern,
  find_type, resolve_type, resolve, widget_registry,
}
use fastapi_admin_kit.Widgets.Resolution.{is_password, is_secret, resolve-is_secret, resolve-String}

abbrev short_text : ColumnType
short_text = record {
  classes = "String" ∷ [];
  enums = [];
  enum_class = none;
  length = some 40;
  python_type = none;
}

abbrev api_token : WidgetColumn
api_token = record { name = "API_Token"; foreign_keys = []; type = short_text }

abbrev title_column : WidgetColumn
title_column = record { name = "title"; foreign_keys = []; type = short_text }

abbrev itself : String → String
itself s = s

abbrev only : String → List String
only s = s ∷ []

title_resolved : resolve ascii itself only (widget_registry ascii) title_column ≡ text_input 40
unfolding resolve widget_registry register_name register_type find_pattern is_infix starts_with
    resolve_type find_type
title_resolved = refl

resolve-is_secret_example :
    is_password (resolve ascii itself only (widget_registry ascii) api_token)
    ≡ is_secret ascii "API_Token"
resolve-is_secret_example = resolve-is_secret ascii itself only api_token

abbrev body : WidgetColumn
body = record {
  name = "body";
  foreign_keys = [];
  type = record {
    classes = "Text" ∷ "String" ∷ [];
    enums = [];
    enum_class = none;
    length = none;
    python_type = none;
  };
}

text_one_line : resolve ascii itself only (widget_registry ascii) body ≡ plain "TextInputWidget"
unfolding is_infix starts_with
text_one_line = resolve-String ascii itself only body refl refl refl refl
