-- ===== src/Notifications/Template.antt =====
-- Templates and the configuration of fastapi_admin_kit/notifications/config.py. `format` stands for
-- `string.Formatter().vformat` without positional arguments.
use fastapi_admin_kit.Base.{
  String, Bool, true, Option, none, some, List, [], ◌∷◌, is_truthy, if◌then◌else◌,
}
use fastapi_admin_kit.Base.Dict.{Dict, lookup, insert, values}
use fastapi_admin_kit.Base.Result.{Result, ok, err, key_error, ◌>>=◌}

pub record NotificationTemplate : Type 0 where
  pub name : String
  pub title : String
  pub body : String
  pub sms_body : String
  pub email_subject : String
  pub email_html : Option String

abbrev pub or_default : Option String → String → String
or_default none default = default
or_default (some text) default = text

-- `__init__`
unfoldable pub new_template :
    (name title body : String) (sms_body email_subject email_html : Option String)
    → NotificationTemplate
new_template name title body sms_body email_subject email_html = record {
  name = name;
  title = title;
  body = body;
  sms_body = or_default sms_body body;
  email_subject = or_default email_subject title;
  email_html = email_html;
}

pub record Rendered : Type 0 where
  pub title : String
  pub body : String
  pub sms_body : String
  pub email_subject : String
  pub email_html : Option String

abbrev pub Registry : Type 0
Registry = Dict NotificationTemplate

unfoldable pub register : NotificationTemplate → Registry → Registry
register template templates = insert template.name template templates

unfoldable pub get : String → Registry → Option NotificationTemplate
get name templates = lookup name templates

unfoldable pub all_templates : Registry → List NotificationTemplate
all_templates templates = values templates

-- Values of a context are texts, or other values that `format` writes. Those that are dicts, lists or
-- tuples are left out of it.
module _ (V : Type 0) (is_container : V → Bool) (format : String → Dict V → Result String) where
  abbrev pub safe : Dict V → Dict V
  safe [] = []
  safe ((k, v) ∷ context) = if is_container v then safe context else (k, v) ∷ safe context

  abbrev pub context_of : Option (Dict V) → Dict V
  context_of none = []
  context_of (some context) = context

  abbrev format_html : Dict V → Option String → Result (Option String)
  format_html context none = ok none
  format_html context (some html) =
      if is_truthy html then (format html context >>= λ text. ok (some text)) else ok none

  unfoldable pub render_template : NotificationTemplate → Option (Dict V) → Result Rendered
  render_template template given =
      let context = safe (context_of given) in
      format template.title context >>= λ title. format template.body context >>= λ body.
      format template.sms_body context >>= λ sms_body.
      format template.email_subject context >>= λ email_subject.
      format_html context template.email_html >>= λ email_html. ok (record {
        title = title;
        body = body;
        sms_body = sms_body;
        email_subject = email_subject;
        email_html = email_html;
      })

  unfoldable pub render : Registry → String → Option (Dict V) → Result Rendered
  render templates name given = elim (get name templates) [
    | none ↦ err key_error
    | some template ↦ render_template template given
  ]

pub record ChangeNotificationConfig : Type 0 where
  pub enabled : Bool
  pub default_channels : List String
  pub events : List String
  pub exclude_actor : Bool
  pub template_name : Option String

unfoldable pub default_change_config : ChangeNotificationConfig
default_change_config = record {
  enabled = true;
  default_channels = "in_app" ∷ [];
  events = "create" ∷ "update" ∷ "delete" ∷ [];
  exclude_actor = true;
  template_name = none;
}

pub record NotificationConfig : Type 0 where
  pub default_channels : List String
  pub fallback_channels : List String
  pub default_sms_provider : String
  pub default_email_provider : String
  pub templates : Registry

unfoldable pub default_config : NotificationConfig
default_config = record {
  default_channels = "sms" ∷ "email" ∷ [];
  fallback_channels = "sms" ∷ "email" ∷ [];
  default_sms_provider = "twilio";
  default_email_provider = "smtp";
  templates = [];
}
