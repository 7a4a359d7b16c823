-- ===== src/Notifications/Tests.antt =====
-- Runs of fastapi_admin_kit/notifications/: a user who opted out of texts, a read notification, and
-- a change that a superuser makes.
use fastapi_admin_kit.Base.{
  ℕ, ◌+◌, String, ◌==◌, Bool, true, false, Option, none, some, List, [], ◌∷◌, codes, ltb, ◌≡◌, refl,
  arith, if◌then◌else◌,
}
use fastapi_admin_kit.Base.Dict.{Dict}
use fastapi_admin_kit.Base.Int.{pos}
use fastapi_admin_kit.Base.Result.{Result, ok, map_result}
use fastapi_admin_kit.Base.Text.{eq_codes}
use fastapi_admin_kit.Base.Value.{int, str_of}
use fastapi_admin_kit.Notifications.Store.{
  get_notification, Notification, Tables, new_preference, get_preference, create_notification,
  create_log, is_wanted, unread_count, mark_read,
}
use fastapi_admin_kit.Notifications.Template.{default_config, default_change_config, Rendered}
use fastapi_admin_kit.Notifications.Service.{
  Delivery, sent, Provider, Failure, NotificationResult, World, Service, opted_out, failure,
  success, preference_enabled, send_over, send_email, send, log_channel, deliver_enabled,
  deliver_channel, try_channel, fall_back, deliver_each, finished, persist_if, persist_notification,
  register_in_app_provider, notify_over, notify, email_provider,
}
use fastapi_admin_kit.Notifications.Service.Preferred.{notify-IsPreferred, IsPreferred}
use fastapi_admin_kit.Notifications.Unread.{mark_read-unread_count, is_unread_one, count}
use fastapi_admin_kit.Notifications.Change.{
  User, PreferenceRow, Change, Call, dispatch_model_change, call_for, default_recipients,
  regular_admins, opted_in, without_actor, recipient_dicts, text_of, payload_of, fallback_text,
}
use fastapi_admin_kit.Notifications.Change.Recipients.{
  dispatch_model_change-IsTellingThem, IsTellingThem,
}

abbrev row : ℕ → String → Notification
row id user = record {
  id = id;
  user_id = user;
  user_email = none;
  title = "t";
  body = "b";
  channels = "in_app" ∷ [];
  payload = none;
  status = "sent";
  is_read = false;
}

abbrev two_rows : Tables
two_rows = record {
  notifications = row 1 "ada" ∷ row 2 "ada" ∷ [];
  preferences = new_preference "ada" "sms" false ∷ [];
  logs = [];
  next_id = 3;
}

mark_read-unread_count_example :
    (found : Bool) × (t' : Tables) × (mark_read 2 "ada" two_rows ≡ ok (found, t'))
    × (found ≡ ltb 0 (count (is_wanted 2 (some "ada")) two_rows.notifications))
    × (count (is_unread_one 2 "ada") t'.notifications ≡ 0)
    × ((v : String)
        → unread_count v t'
            + (if "ada" == v then count (is_unread_one 2 "ada") two_rows.notifications else 0)
          ≡ unread_count v two_rows)
mark_read-unread_count_example =
    mark_read-unread_count 2 "ada" two_rows ((omega arith, refl, (omega arith, refl, tt)))

abbrev post : Provider
post = record { name = "post"; send = λ before d. sent "m1" }

abbrev service : Service
service = record {
  config = default_config;
  sms_providers = ("twilio", post) ∷ [];
  email_providers = ("smtp", post) ∷ [];
  in_app = none;
}

abbrev before : World
before = record { tables = two_rows; deliveries = [] }

abbrev mail : Delivery
mail = record {
  channel = "email";
  recipient = "ada@example.org";
  subject = "Notification";
  message = "hello";
}

abbrev no_text : Failure → String
no_text f = ""

abbrev after : World
after = record {
  tables = create_log none "ada" "email" "post" (some "ada@example.org") "sent" none two_rows;
  deliveries = mail ∷ [];
}

abbrev told_ada : NotificationResult
told_ada = record {
  user_id = "ada";
  notification_id = none;
  channels =
      failure "sms" "preferences" opted_out
      ∷ record (success "email" "post" "m1") { fallback_of = some "sms" }
      ∷ [];
}

mail_instead :
    notify no_text service "ada"
      ("sms" ∷ [])
      none
      "hello"
      none
      none
      (some "ada@example.org")
      (some "1")
      before
    ≡ ok (told_ada, after)
unfolding notify notify_over persist_if create_notification deliver_each try_channel fall_back
    deliver_channel preference_enabled get_preference deliver_enabled send send_email email_provider
    send_over log_channel create_log finished default_config
mail_instead = refl

notify-IsPreferred_example : IsPreferred no_text "ada" before after
notify-IsPreferred_example =
    notify-IsPreferred no_text "ada" before service ("sms" ∷ []) none "hello" none none
      (some "ada@example.org") (some "1") told_ada after mail_instead

-- Grace has opted out of the notifications in the app; the custom provider gets hers all the same.
abbrev opted_out_of_all : World
opted_out_of_all = record before {
  tables = record two_rows { preferences = new_preference "grace" "in_app" false ∷ [] };
}

handed_over_regardless :
    (preference_enabled "grace" "in_app" opted_out_of_all.tables ≡ ok false)
    × (map_result
          (λ r. r.1.deliveries)
          (persist_if no_text true
            (register_in_app_provider post service)
            "grace"
            none
            "Hello"
            "there"
            ("in_app" ∷ [])
            none
            opted_out_of_all)
        ≡ ok (
            record { channel = "in_app"; recipient = "grace"; subject = "Hello"; message = "there" }
            ∷ []))
unfolding persist_if persist_notification create_notification get_notification preference_enabled
    get_preference register_in_app_provider
handed_over_regardless = (refl, refl)

abbrev user : ℕ → Bool → User
user id superuser = record {
  id = int (pos id);
  email = none;
  phone = none;
  is_superuser = superuser;
  is_active = true;
}

abbrev users : List User
users = user 1 true ∷ user 2 false ∷ user 3 false ∷ user 4 true ∷ []

abbrev opt_ins : List PreferenceRow
opt_ins = record { user_id = int (pos 2); enabled = true } ∷ []

abbrev change : Change
change = record {
  model_name = codes "Book";
  table_name = codes "books";
  event = "delete";
  object_id = none;
  object_repr = none;
  actor_email = none;
}

abbrev no_template : String → Dict (List ℕ) → Result Rendered
no_template name context =
    ok (record { title = ""; body = ""; sms_body = ""; email_subject = ""; email_html = none })

abbrev told : Option Call
told = some (record {
  recipients =
      record { user_id = int (pos 4); email = none; phone = none; channels = "in_app" ∷ [] }
      ∷ record { user_id = int (pos 2); email = none; phone = none; channels = "in_app" ∷ [] }
      ∷ [];
  title = codes "Book delete";
  body = codes "Book was deleted.";
  payload = payload_of change;
})

others_told :
    dispatch_model_change default_change_config none
      (some users)
      opt_ins
      no_template
      true
      (some (int (pos 1)))
      change
    ≡ ok told
unfolding dispatch_model_change call_for default_recipients regular_admins opted_in without_actor
    recipient_dicts text_of payload_of fallback_text default_change_config eq_codes str_of
others_told = refl

dispatch_model_change-IsTellingThem_example : IsTellingThem users opt_ins (int (pos 1)) told
unfolding default_change_config
dispatch_model_change-IsTellingThem_example =
    dispatch_model_change-IsTellingThem users opt_ins (int (pos 1)) default_change_config
      no_template true change told refl refl others_told
