-- ===== src/Notifications/Change.antt =====
-- `dispatch_model_change` of fastapi_admin_kit/notifications/dispatcher.py: who is told of a
-- change, and what. The result is what is handed to `notify_many`, or nothing.
pub mod Recipients
use fastapi_admin_kit.Base.{
  ℕ, String, ◌==◌, Bool, true, false, not, ◌&&◌, ◌||◌, Option, none, some, List, [], ◌∷◌, ◌++◌, map,
  keep, any, codes, if◌then◌else◌,
}
use fastapi_admin_kit.Base.Dict.{Dict, lookup_or}
use fastapi_admin_kit.Base.Result.{Result, ok, err, key_error, Error, ◌>>=◌}
use fastapi_admin_kit.Base.Text.{eq_codes}
use fastapi_admin_kit.Base.Value.{Value, null, is_null, str_of}
use fastapi_admin_kit.Notifications.Template.{ChangeNotificationConfig, Rendered}

-- A row of the user model, with `None` as `null`.
pub record User : Type 0 where
  pub id : Value
  pub email : Option String
  pub phone : Option String
  pub is_superuser : Bool
  pub is_active : Bool

-- A row of NotificationPreference.
pub record PreferenceRow : Type 0 where
  pub user_id : Value
  pub enabled : Bool

-- A recipient as the hook of the admin gives it, and as it is handed on.
pub record Candidate : Type 0 where
  pub id : Option Value
  pub email : Option String
  pub phone : Option String
  pub channels : Option (List String)

pub record Recipient : Type 0 where
  pub user_id : Value
  pub email : Option String
  pub phone : Option String
  pub channels : List String

pub record Change : Type 0 where
  pub model_name : List ℕ
  pub table_name : List ℕ
  pub event : String
  pub object_id : Option Value
  pub object_repr : Option (List ℕ)
  pub actor_email : Option (List ℕ)

pub record Call : Type 0 where
  pub recipients : List Recipient
  pub title : List ℕ
  pub body : List ℕ
  pub payload : Dict (List ℕ)

abbrev pub candidate : List String → User → Candidate
candidate channels u = record {
  id = some u.id;
  email = u.email;
  phone = u.phone;
  channels = some channels;
}

abbrev pub is_admin : Bool → User → Bool
is_admin superuser u = (if superuser then u.is_superuser else not u.is_superuser) && u.is_active

-- `str(row.user_id)` of the enabled rows that name a user.
abbrev pub is_opt_in : PreferenceRow → Bool
is_opt_in p = p.enabled && not (is_null p.user_id)

unfoldable pub opted_in : List PreferenceRow → List (List ℕ)
opted_in rows = map (λ p. str_of p.user_id) (keep is_opt_in rows)

abbrev pub has_opted_in : List (List ℕ) → User → Bool
has_opted_in ids u = any (λ i. eq_codes i (str_of u.id)) ids

unfoldable pub regular_admins : List User → List (List ℕ) → List User
regular_admins users [] = []
regular_admins users (i ∷ ids) = keep (has_opted_in (i ∷ ids)) (keep (is_admin false) users)

-- Where the hook leaves the choice: all active superusers, and the active other admins that opted in.
unfoldable pub default_recipients : List String → List User → List PreferenceRow → List Candidate
default_recipients channels users rows =
    map (candidate channels) (keep (is_admin true) users)
    ++ map (candidate channels) (regular_admins users (opted_in rows))

-- `str(r.get("id"))`
abbrev pub id_text : Option Value → List ℕ
id_text none = str_of null
id_text (some id) = str_of id

abbrev pub is_other : Value → Candidate → Bool
is_other actor c = not (eq_codes (id_text c.id) (str_of actor))

unfoldable pub without_actor : Bool → Option Value → List Candidate → List Candidate
without_actor exclude none cs = cs
without_actor exclude (some actor) cs =
    if exclude && not (is_null actor) then keep (is_other actor) cs else cs

abbrev pub channels_or : List String → Option (List String) → List String
channels_or default none = default
channels_or default (some channels) = channels

-- The dicts for `notify_many`; `r["id"]` raises where the key is missing.
unfoldable pub recipient_dicts : List String → List Candidate → Result (List Recipient)
recipient_dicts default [] = ok []
recipient_dicts default (c ∷ cs) = elim c.id [
  | none ↦ err key_error
  | some id ↦ recipient_dicts default cs >>= λ rest. ok (
      record {
        user_id = id;
        email = c.email;
        phone = c.phone;
        channels = channels_or default c.channels;
      }
      ∷ rest)
]

abbrev pub or_blank : Option (List ℕ) → List ℕ
or_blank none = []
or_blank (some text) = text

abbrev pub text_or_blank : Option Value → List ℕ
text_or_blank none = []
text_or_blank (some id) = str_of id

unfoldable pub payload_of : Change → Dict (List ℕ)
payload_of c =
    ("model_name", c.model_name)
    ∷ ("table_name", c.table_name)
    ∷ ("event", codes c.event)
    ∷ ("object_id", text_or_blank c.object_id)
    ∷ ("object_repr", or_blank c.object_repr)
    ∷ ("actor_email", or_blank c.actor_email)
    ∷ []

-- `f"{model} {event}"` and `f"{model} was {event}d."`
unfoldable pub fallback_text : Change → List ℕ × List ℕ
fallback_text c = (
  c.model_name ++ b' ' ∷ codes c.event,
  c.model_name ++ (codes " was " ++ (codes c.event ++ codes "d.")),
)

-- The rendered template, or the fallback where it is not registered; another error is raised.
abbrev pub rendered_or : List ℕ × List ℕ → Result Rendered → Result (List ℕ × List ℕ)
rendered_or fallback (err key_error) = ok fallback
rendered_or fallback (err e) = err e
rendered_or fallback (ok r) = ok (codes r.title, codes r.body)

unfoldable pub text_of :
    Option String → (String → Dict (List ℕ) → Result Rendered) → Change → Result (List ℕ × List ℕ)
text_of none render c = ok (fallback_text c)
text_of (some name) render c = rendered_or (fallback_text c) (render name (payload_of c))

abbrev pub is_none_left : List Candidate → Bool
is_none_left [] = true
is_none_left (_ ∷ _) = false

-- From the recipients on: leave out the actor, write the texts, and call the service if there is one.
unfoldable pub call_for :
    (cfg : ChangeNotificationConfig) (render : String → Dict (List ℕ) → Result Rendered)
    (has_service : Bool) (actor : Option Value) (c : Change) (cs : List Candidate)
    → Result (Option Call)
call_for cfg render has_service actor c cs =
    let left = without_actor cfg.exclude_actor actor cs in
    if is_none_left left
    then ok none
    else (text_of cfg.template_name render c >>= λ text.
        recipient_dicts cfg.default_channels left >>= λ recipients. ok (
          if has_service
          then some (record {
            recipients = recipients;
            title = text.0;
            body = text.1;
            payload = payload_of c;
          })
          else none))

-- `recipients` is what the hook of the admin returns, `users` the rows of the user model or none where
-- there is no user model, and `actor` the id of the current user.
unfoldable pub dispatch_model_change :
    (cfg : ChangeNotificationConfig) (recipients : Option (List Candidate))
    (users : Option (List User)) (preferences : List PreferenceRow)
    (render : String → Dict (List ℕ) → Result Rendered) (has_service : Bool) (actor : Option Value)
    (c : Change)
    → Result (Option Call)
dispatch_model_change cfg recipients users preferences render has_service actor c =
    if not cfg.enabled
    then ok none
    else (if not (any (λ e. e == c.event) cfg.events) then ok none else (elim recipients [
      | some [] ↦ ok none
      | some (r ∷ rs) ↦ call_for cfg render has_service actor c (r ∷ rs)
      | none ↦ elim users [
        | none ↦ ok none
        | some rows ↦
            call_for cfg render has_service actor c
              (default_recipients cfg.default_channels rows preferences)
      ]
    ]))
