-- ===== src/Notifications/Service.antt =====
-- `NotificationService` of fastapi_admin_kit/notifications/service.py. A provider's answer may
-- depend on all that was handed to providers before, which the world keeps next to the tables.
-- Pushing a stored notification to open connections is Notifications/Hub; a custom in-app provider
-- is modelled here. The texts of errors are kinds here.
pub mod Preferred
use fastapi_admin_kit.Base.{
  ℕ, String, ◌==◌, Bool, true, false, not, ◌&&◌, ◌||◌, Option, none, some, List, [], ◌∷◌, ◌++◌, any,
  is_truthy, if◌then◌else◌,
}
use fastapi_admin_kit.Base.Dict.{Dict, lookup, insert}
use fastapi_admin_kit.Base.Result.{Result, ok, err, key_error, ◌>>=◌}
use fastapi_admin_kit.Base.Value.{Value}
use fastapi_admin_kit.Notifications.Store.{
  Tables, Notification, Preference, get_preference, get_notification, create_notification,
  set_notification_status, create_log,
}
use fastapi_admin_kit.Notifications.Template.{NotificationConfig, Rendered, render}

-- What is handed to a provider: the channel, the address, the subject (of mail) and the text. A custom
-- in-app provider gets the stored row; what stands here of it is the user, the title and the body.
pub record Delivery : Type 0 where
  pub channel : String
  pub recipient : String
  pub subject : String
  pub message : String

pub data Sent : Type 0 where
  sent : String → Sent
  failed : String → Sent

pub record Provider : Type 0 where
  pub name : String
  pub send : List Delivery → Delivery → Sent

pub data Failure : Type 0 where
  opted_out no_address not_registered unknown_channel : Failure
  raised : String → Failure

pub record ChannelResult : Type 0 where
  pub channel : String
  pub provider : String
  pub success : Bool
  pub message_id : String
  pub error : Option Failure
  pub fallback_of : Option String

pub record NotificationResult : Type 0 where
  pub user_id : String
  pub notification_id : Option ℕ
  pub channels : List ChannelResult

pub record World : Type 0 where
  pub tables : Tables
  pub deliveries : List Delivery

pub record Service : Type 0 where
  pub config : NotificationConfig
  pub sms_providers : Dict Provider
  pub email_providers : Dict Provider
  pub in_app : Option Provider

-- `getattr(provider, "name", None) or name`
unfoldable pub register_sms_provider : String → Provider → Service → Service
register_sms_provider name p s = record s {
  sms_providers =
      insert name (record p { name = if is_truthy p.name then p.name else name }) s.sms_providers;
}

unfoldable pub register_email_provider : String → Provider → Service → Service
register_email_provider name p s = record s {
  email_providers =
      insert name (record p { name = if is_truthy p.name then p.name else name }) s.email_providers;
}

unfoldable pub register_in_app_provider : Provider → Service → Service
register_in_app_provider p s = record s { in_app = some p }

-- `name or default`, looked up; a `KeyError` where it is not registered.
abbrev pub named_or : Option String → String → String
named_or none default = default
named_or (some name) default = if is_truthy name then name else default

abbrev pub found_or_raise {ℓ} : {A : Type ℓ} → Option A → Result A
found_or_raise none = err key_error
found_or_raise (some a) = ok a

unfoldable pub sms_provider : Option String → Service → Result Provider
sms_provider name s =
    found_or_raise (lookup (named_or name s.config.default_sms_provider) s.sms_providers)

unfoldable pub email_provider : Option String → Service → Result Provider
email_provider name s =
    found_or_raise (lookup (named_or name s.config.default_email_provider) s.email_providers)

abbrev pub enabled_of : Option Preference → Bool
enabled_of none = true
enabled_of (some p) = p.enabled

unfoldable pub preference_enabled : String → String → Tables → Result Bool
preference_enabled user channel t = get_preference user channel t >>= λ found. ok (enabled_of found)

abbrev pub failure : String → String → Failure → ChannelResult
failure channel provider error = record {
  channel = channel;
  provider = provider;
  success = false;
  message_id = "";
  error = some error;
  fallback_of = none;
}

abbrev pub success : String → String → String → ChannelResult
success channel provider message_id = record {
  channel = channel;
  provider = provider;
  success = true;
  message_id = message_id;
  error = none;
  fallback_of = none;
}

abbrev pub result_of : String → String → String → Sent → ChannelResult
result_of channel default name (sent message_id) = success channel name message_id
result_of channel default name (failed text) = failure channel default (raised text)

-- `_send_sms` and `_send_email` differ in the provider and in what they hand to it.
unfoldable pub send_over :
    (default : String) (found : Result Provider) (address : Option String) (d : Delivery)
    (w : World)
    → ChannelResult × World
send_over default found none d w = (failure d.channel default no_address, w)
send_over default (err e) (some address) d w =
    if is_truthy address
    then (failure d.channel default not_registered, w)
    else (failure d.channel default no_address, w)
send_over default (ok p) (some address) d w =
    if is_truthy address
    then (
      result_of d.channel default p.name (p.send w.deliveries d),
      record w { deliveries = w.deliveries ++ d ∷ [] },
    )
    else (failure d.channel default no_address, w)

abbrev pub text_of : Option String → String
text_of none = ""
text_of (some text) = text

-- What a delivery is told of the notification.
pub record Message : Type 0 where
  pub user_id : String
  pub message : String
  pub title : String
  pub email : Option String
  pub phone : Option String
  pub notification_id : Option ℕ

unfoldable pub send_sms : Service → Message → World → ChannelResult × World
send_sms s m w =
    let d : Delivery = record {
      channel = "sms";
      recipient = text_of m.phone;
      subject = "";
      message = m.message;
    } in
    send_over s.config.default_sms_provider (sms_provider none s) m.phone d w

unfoldable pub send_email : Service → Message → World → ChannelResult × World
send_email s m w =
    let d : Delivery = record {
      channel = "email";
      recipient = text_of m.email;
      subject = m.title;
      message = m.message;
    } in
    send_over s.config.default_email_provider (email_provider none s) m.email d w

-- The branch over the channels.
unfoldable pub send : Service → String → Message → World → ChannelResult × World
send s channel m w =
    if channel == "sms"
    then send_sms s m w
    else (if channel == "email"
        then send_email s m w
        else (if channel == "in_app"
            then (success "in_app" "db" "", w)
            else (failure channel "" unknown_channel, w)))

-- `if fallback_of: result.fallback_of = fallback_of`
abbrev pub with_fallback : Option String → ChannelResult → ChannelResult
with_fallback none r = r
with_fallback (some name) r = if is_truthy name then record r { fallback_of = some name } else r

abbrev pub status_of : Bool → String
status_of true = "sent"
status_of false = "failed"

module _ (describe : Failure → String) where
  abbrev pub described : Option Failure → Option String
  described none = none
  described (some f) = some (describe f)

  -- `_log_channel`
  unfoldable pub log_channel : String → Message → ChannelResult → World → World
  log_channel channel m r w = record w {
    tables =
        create_log m.notification_id m.user_id channel r.provider
          (if channel == "sms" then m.phone else m.email) (status_of r.success) (described r.error)
          w.tables;
  }

  unfoldable pub deliver_enabled :
      Service → String → Option String → Message → World → ChannelResult × World
  deliver_enabled s channel fallback_of m w =
      let (r, w') = send s channel m w in (with_fallback fallback_of r, log_channel channel m r w')

  -- `_deliver_channel`
  unfoldable pub deliver_channel :
      Service → String → Option String → Message → World → Result (ChannelResult × World)
  deliver_channel s channel fallback_of m w =
      if channel == "in_app"
      then ok (deliver_enabled s channel fallback_of m w)
      else (preference_enabled m.user_id channel w.tables >>= λ enabled. ok (
          if enabled
          then deliver_enabled s channel fallback_of m w
          else (record (failure channel "preferences" opted_out) { fallback_of = fallback_of }, w)))

  -- What the loops carry: the channels tried, the results, and the world.
  pub record Progress : Type 0 where
    pub attempted : List String
    pub results : List ChannelResult
    pub world : World

  abbrev pub member : String → List String → Bool
  member c cs = any (λ d. c == d) cs

  abbrev pub noted : String → ChannelResult → World → Progress → Progress
  noted channel r w p = record {
    attempted = channel ∷ p.attempted;
    results = p.results ++ r ∷ [];
    world = w;
  }

  unfoldable pub try_channel :
      Service → String → Option String → Message → Progress → Result (Bool × Progress)
  try_channel s channel fallback_of m p =
      deliver_channel s channel fallback_of m p.world >>= λ done.
      ok (done.0.success, noted channel done.0 done.1 p)

  -- The loop over the fallback channels that are left.
  unfoldable pub fall_back :
      Service → List String → String → Message → List String → Progress → Result Progress
  fall_back s channels failing m [] p = ok p
  fall_back s channels failing m (fb ∷ fbs) p =
      if member fb p.attempted || member fb channels
      then fall_back s channels failing m fbs p
      else (try_channel s fb (some failing) m p >>= λ done.
          if done.0 then ok done.1 else fall_back s channels failing m fbs done.1)

  -- The loop over the channels that are left.
  unfoldable pub deliver_each :
      Service → List String → Message → List String → Progress → Result Progress
  deliver_each s channels m [] p = ok p
  deliver_each s channels m (c ∷ cs) p = try_channel s c none m p >>= λ done.
      (if done.0 then ok done.1 else fall_back s channels c m s.config.fallback_channels done.1)
      >>= λ p'. deliver_each s channels m cs p'

  unfoldable pub finished : Option ℕ → List ChannelResult → World → Result World
  finished none results w = ok w
  finished (some id) results w =
      set_notification_status id (status_of (any (λ r. r.success) results)) w.tables >>= λ set.
      ok (record w { tables = set.1 })

  abbrev pub or_notification : Option String → String
  or_notification none = "Notification"
  or_notification (some title) = if is_truthy title then title else "Notification"

  -- `_push_in_app` to a custom provider; what it raises is caught, and its answer is not read.
  abbrev pub hand_over : Option Provider → Notification → World → World
  hand_over none n w = w
  hand_over (some p) n w = record w {
    deliveries =
        w.deliveries
        ++ record { channel = "in_app"; recipient = n.user_id; subject = n.title; message = n.body }
          ∷ [];
  }

  abbrev pub push_in_app : Option Provider → Option Notification → World → World
  push_in_app p none w = w
  push_in_app p (some n) w = hand_over p n w

  -- `_persist_notification`
  unfoldable pub persist_notification :
      (s : Service) (user : String) (email : Option String) (title body : String)
      (channels : List String) (payload : Option (Dict Value)) (w : World)
      → Result (ℕ × World)
  persist_notification s user email title body channels payload w =
      let stored = create_notification user email title body channels payload w.tables in
      get_notification stored.0 none stored.1 >>= λ found.
      ok (stored.0, push_in_app s.in_app found (record w { tables = stored.1 }))

  abbrev pub with_id : ℕ × World → Option ℕ × World
  with_id stored = (some stored.0, stored.1)

  -- The stored notification, if the channel is asked for.
  unfoldable pub persist_if :
      (asked : Bool) (s : Service) (user : String) (email : Option String) (title body : String)
      (channels : List String) (payload : Option (Dict Value)) (w : World)
      → Result (Option ℕ × World)
  persist_if asked s user email title body channels payload w =
      if asked
      then (persist_notification s user email title body channels payload w >>= λ stored.
          ok (with_id stored))
      else ok (none, w)

  -- `notify` after the template and the channels are settled.
  unfoldable pub notify_over :
      (s : Service) (user : String) (channels : List String) (title : Option String)
      (message : String) (payload : Option (Dict Value)) (email phone : Option String) (w : World)
      → Result (NotificationResult × World)
  notify_over s user channels title message payload email phone w =
      persist_if (member "in_app" channels) s user email (or_notification title) message channels
        payload w
      >>= λ stored.
          let m : Message = record {
            user_id = user;
            message = message;
            title = or_notification title;
            email = email;
            phone = phone;
            notification_id = stored.0;
          } in
          deliver_each s channels m channels
            (record { attempted = []; results = []; world = stored.1 })
          >>= λ p. finished stored.0 p.results p.world >>= λ w'.
              ok (record { user_id = user; notification_id = stored.0; channels = p.results }, w')

  abbrev pub channels_or : List String → List String → List String
  channels_or [] default = default
  channels_or (c ∷ cs) default = c ∷ cs

  abbrev pub title_or : Option String → String → Option String
  title_or none rendered = some rendered
  title_or (some title) rendered = if is_truthy title then some title else some rendered

  -- `notify`; `rendered` is what the named template gives, or no template.
  unfoldable pub notify :
      (s : Service) (user : String) (channels : List String) (title : Option String)
      (message : String) (rendered : Option (Result Rendered)) (payload : Option (Dict Value))
      (email phone : Option String) (w : World)
      → Result (NotificationResult × World)
  notify s user channels title message none payload email phone w =
      notify_over s user (channels_or channels s.config.default_channels) title message payload
        email phone w
  notify s user channels title message (some rendered) payload email phone w = rendered >>= λ r.
      notify_over s user (channels_or channels s.config.default_channels) (title_or title r.title)
        r.body payload email phone w

  pub record Recipient : Type 0 where
    pub user_id : String
    pub email : Option String
    pub phone : Option String
    pub channels : List String

  -- `notify_many`; `channels` none lets each recipient's own count.
  unfoldable pub notify_many :
      (s : Service) (recipients : List Recipient) (message : String)
      (channels : Option (List String)) (title : Option String)
      (rendered : Option (Result Rendered)) (payload : Option (Dict Value)) (w : World)
      → Result (List NotificationResult × World)
  notify_many s [] message channels title rendered payload w = ok ([], w)
  notify_many s (r ∷ rs) message channels title rendered payload w =
      notify s r.user_id (elim channels [ some given ↦ given | none ↦ r.channels ]) title message
        rendered payload r.email r.phone w
      >>= λ one. notify_many s rs message channels title rendered payload one.1 >>= λ rest.
          ok (one.0 ∷ rest.0, rest.1)
