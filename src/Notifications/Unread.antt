-- ===== src/Notifications/Unread.antt =====
-- Reading a notification and the number of unread ones, fastapi_admin_kit/notifications/store.py.
use fastapi_admin_kit.Base.{
  ℕ, ◌+◌, ◌<◌, String, ◌==◌, Bool, true, false, ◌&&◌, some, List, [], ◌∷◌, keep, length, ltb, ◌≡◌,
  refl, ◌⊎◌, arith, eq_iff, Bool-cases, inl, inr, if◌then◌else◌,
}
use fastapi_admin_kit.Base.Result.{ok}
use fastapi_admin_kit.Notifications.Store.{
  Notification, Tables, has_id, is_wanted, is_unread, is_listed, put, as_read, get_notification,
  unread_count, mark_read,
}

-- Ids below the next one, each once: what the tables keep to.
abbrev pub IsNumbered : ℕ → List Notification → Type 0
IsNumbered next [] = Unit
IsNumbered next (n ∷ ns) = (n.id < next) × (keep (has_id n.id) ns ≡ []) × IsNumbered next ns

abbrev pub IsTables : Tables → Type 0
IsTables t = IsNumbered t.next_id t.notifications

-- The user's unread rows with that id: one or none.
abbrev pub is_unread_one : ℕ → String → Notification → Bool
is_unread_one id user n = is_wanted id (some user) n && is_unread n

abbrev pub count : (Notification → Bool) → List Notification → ℕ
count p ns = length (keep p ns)

-- The rows after the call: the user's row with that id is read.
abbrev pub mark : ℕ → String → Notification → Notification
mark id user n = if is_wanted id (some user) n then as_read n else n

abbrev pub mark_all : ℕ → String → List Notification → List Notification
mark_all id user [] = []
mark_all id user (n ∷ ns) = mark id user n ∷ mark_all id user ns

module _ (id : ℕ) (user : String) where
  unique_id :
      (k : ℕ) (ns : List Notification)
      → keep (has_id k) ns ≡ []
      → k ≡ id
      → keep (is_wanted id (some user)) ns ≡ []
  unique_id k [] e same = refl
  unique_id k (n ∷ ns) e same = ground (arith, unique_id k ns)

  keep_holds :
      (ns : List Notification) (n : Notification) (rest : List Notification)
      → keep (is_wanted id (some user)) ns ≡ n ∷ rest
      → is_wanted id (some user) n ≡ true
  keep_holds [] n rest e = cc
  keep_holds (m ∷ ns) n rest e = elim (Bool-cases (is_wanted id (some user) m)) [
    | inl here ↦ let same : m ≡ n = ground (arith, here, e) in ground (arith, here, same)
    | inr other ↦ keep_holds ns n rest (ground (arith, other, e))
  ]

  -- With each id once, one row at most is wanted.
  one_wanted :
      (next : ℕ) (ns : List Notification)
      → IsNumbered next ns
      → (keep (is_wanted id (some user)) ns ≡ [])
        ⊎ ((n : Notification) × (keep (is_wanted id (some user)) ns ≡ n ∷ []))
  one_wanted next [] h = inl refl
  one_wanted next (n ∷ ns) (low, alone, h) = elim (Bool-cases (is_wanted id (some user) n)) [
    | inl here ↦
        let rest = unique_id n.id ns alone (ground (arith, here)) in
        inr (n, ground (arith, here, rest))
    | inr other ↦ elim (one_wanted next ns h) [
      | inl e ↦ inl (ground (arith, other, e))
      | inr (m, e) ↦ inr (m, ground (arith, other, e))
    ]
  ]

  mark_all_none :
      (ns : List Notification) → keep (is_wanted id (some user)) ns ≡ [] → mark_all id user ns ≡ ns
  mark_all_none [] e = refl
  mark_all_none (n ∷ ns) e = ground (arith, mark_all_none ns)

  put-mark_all :
      (next : ℕ) (ns : List Notification) (n : Notification)
      → IsNumbered next ns
      → keep (is_wanted id (some user)) ns ≡ n ∷ []
      → put (as_read n) ns ≡ mark_all id user ns
  unfolding put
  put-mark_all next [] n h e = cc
  put-mark_all next (m ∷ ns) n (low, alone, h) e =
      let mine = keep_holds (m ∷ ns) n [] e in
      elim (Bool-cases (is_wanted id (some user) m)) [
        | inl here ↦
            let same : m ≡ n = ground (arith, here, e) in
            let none_left : keep (is_wanted id (some user)) ns ≡ [] = ground (arith, here, e) in
            ground (arith, here, same, mark_all_none ns none_left)
        | inr other ↦
            let later : keep (is_wanted id (some user)) ns ≡ n ∷ [] = ground (arith, other, e) in
            elim (Bool-cases (has_id n.id m)) [
              | inl clash ↦ let gone = unique_id m.id ns alone (ground (arith, clash, mine)) in cc
              | inr apart ↦ ground (arith, other, apart, put-mark_all next ns n h later)
            ]
      ]

  count-mark_all :
      (v : String) (ns : List Notification)
      → count (is_listed true v) (mark_all id user ns)
          + (if user == v then count (is_unread_one id user) ns else 0)
        ≡ count (is_listed true v) ns
  count-mark_all v [] = ground arith
  count-mark_all v (n ∷ ns) =
      ground (arith, count-mark_all v ns, eq_iff n.user_id v, eq_iff n.user_id user, eq_iff user v)

  no_unread : (ns : List Notification) → count (is_unread_one id user) (mark_all id user ns) ≡ 0
  no_unread [] = refl
  no_unread (n ∷ ns) = ground (arith, no_unread ns)

  -- In tables that give each id once, `mark_read` answers whether the user has a notification with
  -- that id. Afterwards this one is not unread, and the unread counts are those from before, less
  -- one for the user whose notification was unread until then.
  pub mark_read-unread_count :
      (t : Tables)
      → IsTables t
      → (found : Bool) × (t' : Tables) × (mark_read id user t ≡ ok (found, t'))
        × (found ≡ ltb 0 (count (is_wanted id (some user)) t.notifications))
        × (count (is_unread_one id user) t'.notifications ≡ 0)
        × ((v : String)
            → unread_count v t'
                + (if user == v then count (is_unread_one id user) t.notifications else 0)
              ≡ unread_count v t)
  unfolding mark_read get_notification unread_count
  mark_read-unread_count t h = elim (one_wanted t.next_id t.notifications h) [
    | inl e ↦
        let still = mark_all_none t.notifications e in
        (
          false,
          t,
          rw (mark_read, e) refl,
          ground (arith, e),
          ground (arith, still, no_unread t.notifications),
          λ v. ground (arith, still, count-mark_all v t.notifications),
        )
    | inr (n, e) ↦
        let changed = put-mark_all t.next_id t.notifications n h e in
        (
          true,
          record t { notifications = put (as_read n) t.notifications },
          rw (mark_read, e) refl,
          ground (arith, e),
          rw changed (no_unread t.notifications),
          λ v. rw changed (count-mark_all v t.notifications),
        )
  ]
