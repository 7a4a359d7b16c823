-- ===== src/Notifications/Service/Preferred.antt =====
-- No channel that a user opted out of, fastapi_admin_kit/notifications/service.py.
use mathlib.Core.List.{append_assoc, append-nil}
use fastapi_admin_kit.Base.{
  ◌⊎◌, inl, inr, ℕ, String, ◌==◌, Bool, true, false, ◌||◌, Option, none, some, List, [], ◌∷◌, ◌++◌,
  any, All, All-append, if-elim, is_truthy, ◌≡◌, refl, sym, ap, ◌∙◌, eq_iff, if◌then◌else◌,
}
use fastapi_admin_kit.Base.Dict.{Dict}
use fastapi_admin_kit.Base.Result.{Result, ok, err, Ensures, bind-Ensures, Ensures-eq}
use fastapi_admin_kit.Base.Value.{Value}
use fastapi_admin_kit.Notifications.Store.{
  Notification, Tables, get_notification, with_status, get_preference, create_notification,
  set_notification_status, write, create_log,
}
use fastapi_admin_kit.Notifications.Template.{Rendered}
use fastapi_admin_kit.Notifications.Service.{
  Delivery, Provider, Failure, ChannelResult, NotificationResult, World, Service, Message, Progress,
  preference_enabled, send_over, send_sms, send_email, send, log_channel, deliver_enabled,
  deliver_channel, try_channel, fall_back, deliver_each, finished, push_in_app,
  persist_notification, persist_if, notify_over, notify, member, status_of, channels_or, title_or,
  sms_provider, email_provider,
}

preference_enabled-preferences :
    (user channel : String) (t t' : Tables)
    → t'.preferences ≡ t.preferences
    → preference_enabled user channel t' ≡ preference_enabled user channel t
unfolding preference_enabled get_preference
preference_enabled-preferences user channel t t' e = rw e refl

anything : (found : Result (Option Notification)) → Ensures (λ _. Unit) found
anything (err e) = tt
anything (ok a) = tt

-- From the world `w`: only deliveries over channels that are enabled for the user, or to the custom
-- in-app provider, were added, and the preferences are as they were.
module _ (describe : Failure → String) (user : String) (w : World) where
  abbrev pub IsEnabled : Delivery → Type 0
  IsEnabled d = (d.channel ≡ "in_app") ⊎ (preference_enabled user d.channel w.tables ≡ ok true)

  abbrev pub IsPreferred : World → Type 0
  IsPreferred w' =
      (w'.tables.preferences ≡ w.tables.preferences)
      × (added : List Delivery) × (w'.deliveries ≡ w.deliveries ++ added)
      × All IsEnabled added

  send_over-IsPreferred :
      (default : String) (found : Result Provider) (address : Option String) (d : Delivery)
      (v : World)
      → IsEnabled d
      → IsPreferred v
      → IsPreferred (send_over default found address d v).1
  unfolding send_over
  send_over-IsPreferred default found none d v on h = h
  send_over-IsPreferred default (err e) (some address) d v on h =
      if-elim (λ (r : ChannelResult × World). IsPreferred r.1) (is_truthy address) _ _ (λ t. h)
        (λ f. h)
  send_over-IsPreferred default (ok p) (some address) d v on (same, added, e, all) =
      if-elim (λ (r : ChannelResult × World). IsPreferred r.1) (is_truthy address) _ _
        (λ t. (
          same,
          added ++ d ∷ [],
          ap (λ ds. ds ++ d ∷ []) e ∙ append_assoc w.deliveries added (d ∷ []),
          All-append IsEnabled added (d ∷ []) all (on, tt),
        ))
        (λ f. (same, added, e, all))

  send-IsPreferred :
      (s : Service) (channel : String) (m : Message) (v : World)
      → ((channel == "in_app") ≡ false → preference_enabled user channel w.tables ≡ ok true)
      → IsPreferred v
      → IsPreferred (send s channel m v).1
  unfolding send send_sms send_email
  send-IsPreferred s channel m v on h =
      if-elim (λ (r : ChannelResult × World). IsPreferred r.1) (channel == "sms") _ _
        (λ sms.
          send_over-IsPreferred s.config.default_sms_provider (sms_provider none s) m.phone _ v
            (inr (moved "sms" ((eq_iff channel "sms").0 sms) refl)) h)
        (λ no_sms.
          if-elim (λ (r : ChannelResult × World). IsPreferred r.1) (channel == "email") _ _
            (λ email.
              send_over-IsPreferred s.config.default_email_provider (email_provider none s) m.email
                _ v (inr (moved "email" ((eq_iff channel "email").0 email) refl)) h)
            (λ no_email.
              if-elim (λ (r : ChannelResult × World). IsPreferred r.1) (channel == "in_app") _ _
                (λ a. h) (λ b. h)))
    where
      moved :
          (name : String)
          → channel ≡ name
          → (name == "in_app") ≡ false
          → preference_enabled user name w.tables ≡ ok true
      moved name e other =
          ap (λ c. preference_enabled user c w.tables) (sym e)
          ∙ on (ap (λ c. c == "in_app") e ∙ other)

  log_channel-IsPreferred :
      (channel : String) (m : Message) (r : ChannelResult) (v : World)
      → IsPreferred v
      → IsPreferred (log_channel describe channel m r v)
  unfolding log_channel create_log
  log_channel-IsPreferred channel m r v h = h

  deliver_enabled-IsPreferred :
      (s : Service) (channel : String) (fallback_of : Option String) (m : Message) (v : World)
      → ((channel == "in_app") ≡ false → preference_enabled user channel w.tables ≡ ok true)
      → IsPreferred v
      → IsPreferred (deliver_enabled describe s channel fallback_of m v).1
  unfolding deliver_enabled
  deliver_enabled-IsPreferred s channel fallback_of m v on h =
      log_channel-IsPreferred channel m (send s channel m v).0 (send s channel m v).1
        (send-IsPreferred s channel m v on h)

  -- The message is to the user.
  module _ (s : Service) (m : Message) (to_user : m.user_id ≡ user) where
    deliver_channel-IsPreferred :
        (channel : String) (fallback_of : Option String) (v : World)
        → IsPreferred v
        → Ensures
            (λ (r : ChannelResult × World). IsPreferred r.1)
            (deliver_channel describe s channel fallback_of m v)
    unfolding deliver_channel
    deliver_channel-IsPreferred channel fallback_of v h =
        if-elim (Ensures (λ (r : ChannelResult × World). IsPreferred r.1)) (channel == "in_app") _ _
          (λ in_app.
            deliver_enabled-IsPreferred s channel fallback_of m v
              (λ other. absurd (clash in_app other)) h)
          (λ other.
            bind-Ensures (λ b. preference_enabled user channel w.tables ≡ ok b)
              (λ (r : ChannelResult × World). IsPreferred r.1)
              (preference_enabled m.user_id channel v.tables) _
              (known (preference_enabled m.user_id channel v.tables) refl)
              (λ b e.
                if-elim (λ (r : ChannelResult × World). IsPreferred r.1) b _ _
                  (λ t. deliver_enabled-IsPreferred s channel fallback_of m v (λ _. e ∙ ap ok t) h)
                  (λ f. h)))
      where
        clash : {b : Bool} → b ≡ true → b ≡ false → ⊥
        clash t f = cc

        known :
            (found : Result Bool)
            → preference_enabled m.user_id channel v.tables ≡ found
            → Ensures (λ b. preference_enabled user channel w.tables ≡ ok b) found
        known (err e) same = tt
        known (ok b) same =
            sym (preference_enabled-preferences user channel w.tables v.tables h.0)
            ∙ ap (λ u. preference_enabled u channel v.tables) (sym to_user)
            ∙ same

    abbrev pub IsOn : Progress describe → Type 0
    IsOn p = IsPreferred p.world

    try_channel-IsOn :
        (channel : String) (fallback_of : Option String) (p : Progress describe)
        → IsOn p
        → Ensures
            (λ (r : Bool × Progress describe). IsOn r.1)
            (try_channel describe s channel fallback_of m p)
    unfolding try_channel
    try_channel-IsOn channel fallback_of p h =
        bind-Ensures (λ (r : ChannelResult × World). IsPreferred r.1)
          (λ (r : Bool × Progress describe). IsOn r.1)
          (deliver_channel describe s channel fallback_of m p.world) _
          (deliver_channel-IsPreferred channel fallback_of p.world h) (λ done k. k)

    fall_back-IsOn :
        (channels : List String) (failing : String) (fbs : List String) (p : Progress describe)
        → IsOn p
        → Ensures IsOn (fall_back describe s channels failing m fbs p)
    unfolding fall_back
    fall_back-IsOn channels failing [] p h = h
    fall_back-IsOn channels failing (fb ∷ fbs) p h =
        if-elim (Ensures IsOn) (member describe fb p.attempted || member describe fb channels) _ _
          (λ tried. fall_back-IsOn channels failing fbs p h)
          (λ new.
            bind-Ensures (λ (r : Bool × Progress describe). IsOn r.1) IsOn
              (try_channel describe s fb (some failing) m p) _
              (try_channel-IsOn fb (some failing) p h)
              (λ done k.
                if-elim (Ensures IsOn) done.0 _ _ (λ t. k)
                  (λ f. fall_back-IsOn channels failing fbs done.1 k)))

    deliver_each-IsOn :
        (channels cs : List String) (p : Progress describe)
        → IsOn p
        → Ensures IsOn (deliver_each describe s channels m cs p)
    unfolding deliver_each
    deliver_each-IsOn channels [] p h = h
    deliver_each-IsOn channels (c ∷ cs) p h =
        bind-Ensures (λ (r : Bool × Progress describe). IsOn r.1) IsOn
          (try_channel describe s c none m p) _ (try_channel-IsOn c none p h)
          (λ done k.
            bind-Ensures IsOn IsOn
              (if done.0
                then ok done.1
                else fall_back describe s channels c m s.config.fallback_channels done.1)
              _
              (if-elim (Ensures IsOn) done.0 _ _ (λ t. k)
                (λ f. fall_back-IsOn channels c s.config.fallback_channels done.1 k))
              (λ p' k'. deliver_each-IsOn channels cs p' k'))

  write-preferences :
      (found : Option Notification) (change : Notification → Notification) (t : Tables)
      → (write found change t).1.preferences ≡ t.preferences
  write-preferences none change t = refl
  write-preferences (some n) change t = refl

  set_notification_status-preferences :
      (id : ℕ) (status : String) (t : Tables)
      → Ensures
          (λ (r : Bool × Tables). r.1.preferences ≡ t.preferences)
          (set_notification_status id status t)
  unfolding set_notification_status
  set_notification_status-preferences id status t =
      bind-Ensures (λ found. Unit) (λ (r : Bool × Tables). r.1.preferences ≡ t.preferences)
        (get_notification id none t) _ (anything (get_notification id none t))
        (λ found _. write-preferences found (with_status status) t)

  finished-IsPreferred :
      (id : Option ℕ) (results : List ChannelResult) (v : World)
      → IsPreferred v
      → Ensures IsPreferred (finished describe id results v)
  unfolding finished
  finished-IsPreferred none results v h = h
  finished-IsPreferred (some id) results v h =
      bind-Ensures (λ (r : Bool × Tables). r.1.preferences ≡ v.tables.preferences) IsPreferred
        (set_notification_status id (status_of (any (λ r. r.success) results)) v.tables) _
        (set_notification_status-preferences id (status_of (any (λ r. r.success) results)) v.tables)
        (λ set e. (e ∙ h.0, h.1, h.2, h.3))

  abbrev pub IsDone : NotificationResult × World → Type 0
  IsDone r = IsPreferred r.1

  abbrev IsStored : Option ℕ × World → Type 0
  IsStored r = IsPreferred r.1

  nothing_added :
      (t : Tables) → t.preferences ≡ w.tables.preferences → IsPreferred (record w { tables = t })
  nothing_added t e = (e, [], sym (append-nil w.deliveries), tt)

  push_in_app-IsPreferred :
      (p : Option Provider) (found : Option Notification) (t : Tables)
      → t.preferences ≡ w.tables.preferences
      → IsPreferred (push_in_app describe p found (record w { tables = t }))
  push_in_app-IsPreferred none none t e = nothing_added t e
  push_in_app-IsPreferred none (some n) t e = nothing_added t e
  push_in_app-IsPreferred (some p) none t e = nothing_added t e
  push_in_app-IsPreferred (some p) (some n) t e = (e, _, refl, (inl refl, tt))

  persist_if-IsStored :
      (asked : Bool) (s : Service) (email : Option String) (title body : String)
      (channels : List String) (payload : Option (Dict Value))
      → Ensures IsStored (persist_if describe asked s user email title body channels payload w)
  unfolding persist_if persist_notification create_notification
  persist_if-IsStored asked s email title body channels payload =
      if-elim (Ensures IsStored) asked _ _
        (λ in_app.
          bind-Ensures (λ (r : ℕ × World). IsPreferred r.1) IsStored _ _
            (bind-Ensures (λ found. Unit) (λ (r : ℕ × World). IsPreferred r.1)
              (get_notification _ none _) _ (anything (get_notification _ none _))
              (λ found _. push_in_app-IsPreferred s.in_app found _ refl))
            (λ stored k. k))
        (λ other. nothing_added w.tables refl)

  notify_over-IsDone :
      (s : Service) (channels : List String) (title : Option String) (message : String)
      (payload : Option (Dict Value)) (email phone : Option String)
      → Ensures IsDone (notify_over describe s user channels title message payload email phone w)
  unfolding notify_over
  notify_over-IsDone s channels title message payload email phone =
      bind-Ensures IsStored IsDone _ _
        (persist_if-IsStored (member describe "in_app" channels) s email _ message channels payload)
        (λ stored h.
          bind-Ensures (λ (p : Progress describe). IsPreferred p.world) IsDone _ _
            (deliver_each-IsOn s _ refl channels channels _ h)
            (λ p k.
              bind-Ensures IsPreferred IsDone _ _
                (finished-IsPreferred stored.0 p.results p.world k) (λ w' k'. k')))

  notify-IsDone :
      (s : Service) (channels : List String) (title : Option String) (message : String)
      (rendered : Option (Result Rendered)) (payload : Option (Dict Value))
      (email phone : Option String)
      → Ensures IsDone
          (notify describe s user channels title message rendered payload email phone w)
  unfolding notify
  notify-IsDone s channels title message none payload email phone =
      notify_over-IsDone s (channels_or describe channels s.config.default_channels) title message
        payload email phone
  notify-IsDone s channels title message (some (err e)) payload email phone = tt
  notify-IsDone s channels title message (some (ok r)) payload email phone =
      notify_over-IsDone s (channels_or describe channels s.config.default_channels)
        (title_or describe title r.title) r.body payload email phone

  -- Whatever channels are asked for or fallen back to, all that `notify` hands to providers of
  -- texts and of mail goes over channels for which the preferences of the user, as they were
  -- before, do not say no. Only what a custom in-app provider gets does not depend on them. It
  -- changes no preference.
  pub notify-IsPreferred :
      (s : Service) (channels : List String) (title : Option String) (message : String)
      (rendered : Option (Result Rendered)) (payload : Option (Dict Value))
      (email phone : Option String) (result : NotificationResult) (w' : World)
      → notify describe s user channels title message rendered payload email phone w
        ≡ ok (result, w')
      → IsPreferred w'
  notify-IsPreferred s channels title message rendered payload email phone result w' e =
      Ensures-eq IsDone
        (notify describe s user channels title message rendered payload email phone w) (result, w')
        (notify-IsDone s channels title message rendered payload email phone) e
