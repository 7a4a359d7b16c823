-- ===== src/Notifications/Store.antt =====
-- `NotificationStore` of fastapi_admin_kit/notifications/store.py, on the three tables that its queries
-- read and write. A session assigns the id with the flush. Times are left out.
use fastapi_admin_kit.Base.{
  ℕ, suc, String, ◌==◌, Bool, true, false, not, ◌&&◌, Option, none, some, List, [], ◌∷◌, ◌++◌, keep,
  take, drop, length, nat_eq, ltb, if◌then◌else◌,
}
use fastapi_admin_kit.Base.Dict.{Dict, insert}
use fastapi_admin_kit.Base.Result.{Result, ok, err, multiple_results, ◌>>=◌}
use fastapi_admin_kit.Base.Value.{Value}
use fastapi_admin_kit.Base.Sort.{sort_by}

pub record Notification : Type 0 where
  pub id : ℕ
  pub user_id : String
  pub user_email : Option String
  pub title : String
  pub body : String
  pub channels : List String
  pub payload : Option (Dict Value)
  pub status : String
  pub is_read : Bool

pub record Preference : Type 0 where
  pub user_id : String
  pub channel : String
  pub enabled : Bool

pub record Log : Type 0 where
  pub notification_id : ℕ
  pub user_id : String
  pub channel : String
  pub provider : String
  pub recipient : Option String
  pub status : String
  pub error : Option String

pub record Tables : Type 0 where
  pub notifications : List Notification
  pub preferences : List Preference
  pub logs : List Log
  pub next_id : ℕ

-- `scalar_one_or_none`, which raises on two rows.
abbrev pub one_or_none {ℓ} : {A : Type ℓ} → List A → Result (Option A)
one_or_none [] = ok none
one_or_none (r ∷ []) = ok (some r)
one_or_none (r ∷ s ∷ rs) = err multiple_results

abbrev pub is_preference : String → String → Preference → Bool
is_preference user channel p = p.user_id == user && p.channel == channel

unfoldable pub get_preference : String → String → Tables → Result (Option Preference)
get_preference user channel t = one_or_none (keep (is_preference user channel) t.preferences)

-- The row that was read is written back with its new value.
unfoldable pub put_enabled : String → String → Bool → List Preference → List Preference
put_enabled user channel enabled [] = []
put_enabled user channel enabled (p ∷ ps) =
    let rest = put_enabled user channel enabled ps in
    if is_preference user channel p then record p { enabled = enabled } ∷ ps else p ∷ rest

abbrev pub new_preference : String → String → Bool → Preference
new_preference user channel enabled = record {
  user_id = user;
  channel = channel;
  enabled = enabled;
}

unfoldable pub set_preference : String → String → Bool → Tables → Result Tables
set_preference user channel enabled t = get_preference user channel t >>= λ found. ok (elim found [
  | none ↦ record t { preferences = t.preferences ++ new_preference user channel enabled ∷ [] }
  | some _ ↦ record t { preferences = put_enabled user channel enabled t.preferences }
])

-- The dict of the channels in the rows' order.
unfoldable pub collect : String → List Preference → Dict Bool → Dict Bool
collect user [] d = d
collect user (p ∷ ps) d =
    collect user ps (if p.user_id == user then insert p.channel p.enabled d else d)

unfoldable pub get_preferences : String → Tables → Dict Bool
get_preferences user t = collect user t.preferences []

unfoldable pub create_notification :
    (user : String) (email : Option String) (title body : String) (channels : List String)
    (payload : Option (Dict Value)) (t : Tables)
    → ℕ × Tables
create_notification user email title body channels payload t = (
  t.next_id,
  record t {
    notifications =
        t.notifications
        ++ record {
          id = t.next_id;
          user_id = user;
          user_email = email;
          title = title;
          body = body;
          channels = channels;
          payload = payload;
          status = "pending";
          is_read = false;
        }
          ∷ [];
    next_id = suc t.next_id;
  },
)

abbrev pub has_id : ℕ → Notification → Bool
has_id id n = nat_eq n.id id

abbrev pub is_users : String → Notification → Bool
is_users user n = n.user_id == user

-- The condition of the query, with the user where one is given.
abbrev pub is_wanted : ℕ → Option String → Notification → Bool
is_wanted id none n = has_id id n
is_wanted id (some user) n = has_id id n && is_users user n

unfoldable pub get_notification : ℕ → Option String → Tables → Result (Option Notification)
get_notification id user t = one_or_none (keep (is_wanted id user) t.notifications)

-- The row with the key of the changed one is written.
unfoldable pub put : Notification → List Notification → List Notification
put n [] = []
put n (m ∷ ms) = let rest = put n ms in if has_id n.id m then n ∷ ms else m ∷ rest

abbrev pub write : Option Notification → (Notification → Notification) → Tables → Bool × Tables
write none change t = (false, t)
write (some n) change t = (true, record t { notifications = put (change n) t.notifications })

abbrev pub with_status : String → Notification → Notification
with_status status n = record n { status = status }

abbrev pub as_read : Notification → Notification
as_read n = record n { is_read = true }

unfoldable pub set_notification_status : ℕ → String → Tables → Result (Bool × Tables)
set_notification_status id status t =
    get_notification id none t >>= λ found. ok (write found (with_status status) t)

-- `notification_id or 0`
abbrev pub or_zero : Option ℕ → ℕ
or_zero none = 0
or_zero (some id) = id

unfoldable pub create_log :
    (notification_id : Option ℕ) (user channel provider : String) (recipient : Option String)
    (status : String) (error : Option String) (t : Tables)
    → Tables
create_log notification_id user channel provider recipient status error t = record t {
  logs =
      t.logs
      ++ record {
        notification_id = or_zero notification_id;
        user_id = user;
        channel = channel;
        provider = provider;
        recipient = recipient;
        status = status;
        error = error;
      }
        ∷ [];
}

abbrev pub is_unread : Notification → Bool
is_unread n = not n.is_read

abbrev pub is_listed : Bool → String → Notification → Bool
is_listed unread_only user n = is_users user n && (if unread_only then is_unread n else true)

-- `id DESC`
abbrev pub is_newer : Notification → Notification → Result Bool
is_newer m n = ok (ltb n.id m.id)

unfoldable pub list_for_user : String → ℕ → ℕ → Bool → Tables → Result (List Notification)
list_for_user user limit offset unread_only t =
    sort_by is_newer (keep (is_listed unread_only user) t.notifications) >>= λ rows.
    ok (take limit (drop offset rows))

unfoldable pub unread_count : String → Tables → ℕ
unread_count user t = length (keep (is_listed true user) t.notifications)

unfoldable pub mark_read : ℕ → String → Tables → Result (Bool × Tables)
mark_read id user t = get_notification id (some user) t >>= λ found. ok (write found as_read t)
