-- ===== src/Notifications/Change/Recipients.antt =====
-- Whom the default choice tells of a change, fastapi_admin_kit/notifications/dispatcher.py.
use mathlib.Core.List.{Memᴰ}
use fastapi_admin_kit.Base.{
  ℕ, String, ◌==◌, Bool, true, false, not, ◌||◌, Option, none, some, List, [], ◌∷◌, map, keep, any,
  All, All-append, All-weaken, All-keep_tested, if-elim, ◌≡◌, refl, sym, ap, ◌∙◌, arith,
}
use fastapi_admin_kit.Base.Dict.{Dict}
use fastapi_admin_kit.Base.Result.{Result, ok, err, Ensures, bind-Ensures, Ensures-eq}
use fastapi_admin_kit.Base.Text.{eq_codes}
use fastapi_admin_kit.Base.Value.{Value, is_null, str_of}
use fastapi_admin_kit.Notifications.Template.{ChangeNotificationConfig, Rendered}
use fastapi_admin_kit.Notifications.Change.{
  User, PreferenceRow, Candidate, Recipient, Change, Call, candidate, is_admin, opted_in,
  has_opted_in, regular_admins, default_recipients, is_other, without_actor, recipient_dicts,
  text_of, is_none_left, id_text, call_for, dispatch_model_change,
}

member_of : (us : List User) → All (λ u. Memᴰ u us) us
member_of [] = tt
member_of (u ∷ us) = (
  Memᴰ.head refl,
  All-weaken (λ v. Memᴰ v us) (λ v. Memᴰ v (u ∷ us)) us (member_of us) (λ v m. Memᴰ.tail m),
)

module _ (users : List User) (preferences : List PreferenceRow) where
  -- An active user of the table who is a superuser or opted in.
  abbrev IsChosenUser : User → Type 0
  IsChosenUser u =
      Memᴰ u users
      × (u.is_active ≡ true)
      × ((u.is_superuser || has_opted_in (opted_in preferences) u) ≡ true)

  abbrev pub IsDue : Value → Type 0
  IsDue id =
      (u : User) × (id ≡ u.id)
      × Memᴰ u users
      × (u.is_active ≡ true)
      × ((u.is_superuser || has_opted_in (opted_in preferences) u) ≡ true)

  abbrev IsChosen : Candidate → Type 0
  IsChosen c = (id : Value) × (c.id ≡ some id) × (u : User) × (id ≡ u.id) × IsChosenUser u

  map-candidate :
      (channels : List String) (us : List User)
      → All IsChosenUser us
      → All IsChosen (map (candidate channels) us)
  map-candidate channels [] h = tt
  map-candidate channels (u ∷ us) (c, h) = ((u.id, refl, u, refl, c), map-candidate channels us h)

  superusers : All IsChosenUser (keep (is_admin true) users)
  superusers =
      All-weaken (λ u. Memᴰ u users × (is_admin true u ≡ true)) IsChosenUser
        (keep (is_admin true) users)
        (All-keep_tested (λ u. Memᴰ u users) (is_admin true) users (member_of users))
        (λ u (m, t). (m, ground (arith, t), ground (arith, t)))

  opted :
      (ids : List (List ℕ))
      → ids ≡ opted_in preferences
      → All IsChosenUser (regular_admins users ids)
  unfolding regular_admins
  opted [] e = tt
  opted (i ∷ ids) e =
      All-weaken
        (λ u. (Memᴰ u users × (is_admin false u ≡ true)) × (has_opted_in (i ∷ ids) u ≡ true))
        IsChosenUser (keep (has_opted_in (i ∷ ids)) (keep (is_admin false) users))
        (All-keep_tested (λ u. Memᴰ u users × (is_admin false u ≡ true)) (has_opted_in (i ∷ ids))
          (keep (is_admin false) users)
          (All-keep_tested (λ u. Memᴰ u users) (is_admin false) users (member_of users)))
        (λ u ((m, t), o).
          (m, ground (arith, t), or_right u (ap (λ js. has_opted_in js u) (sym e) ∙ o)))
    where
      or_right : (u : User) {b : Bool} → b ≡ true → (u.is_superuser || b) ≡ true
      or_right u h = ground (arith, h)

  default_recipients-IsChosen :
      (channels : List String) → All IsChosen (default_recipients channels users preferences)
  unfolding default_recipients
  default_recipients-IsChosen channels =
      All-append IsChosen (map (candidate channels) (keep (is_admin true) users))
        (map (candidate channels) (regular_admins users (opted_in preferences)))
        (map-candidate channels (keep (is_admin true) users) superusers)
        (map-candidate channels (regular_admins users (opted_in preferences))
          (opted (opted_in preferences) refl))

  module _ (actor : Value) where
    abbrev pub IsTold : Recipient → Type 0
    IsTold r = IsDue r.user_id × (eq_codes (str_of r.user_id) (str_of actor) ≡ false)

    recipient_dicts-IsTold :
        (default : List String) (cs : List Candidate)
        → All (λ c. IsChosen c × (is_other actor c ≡ true)) cs
        → Ensures (All IsTold) (recipient_dicts default cs)
    unfolding recipient_dicts
    recipient_dicts-IsTold default [] h = tt
    recipient_dicts-IsTold default (c ∷ cs) (((id, e, u, same, chosen), other), h) = rw e (
        bind-Ensures (All IsTold) (All IsTold) (recipient_dicts default cs) _
          (recipient_dicts-IsTold default cs h)
          (λ rest k. (((u, same, chosen.0, chosen.1, chosen.2), differs id c.id e other), k)))
      where
        differs :
            (id : Value) (found : Option Value)
            → found ≡ some id
            → not (eq_codes (id_text found) (str_of actor)) ≡ true
            → eq_codes (str_of id) (str_of actor) ≡ false
        differs id found e other =
            let same = ap (λ o. not (eq_codes (id_text o) (str_of actor))) (sym e) ∙ other in
            ground (arith, same)

    abbrev pub IsTellingThem : Option Call → Type 0
    IsTellingThem none = Unit
    IsTellingThem (some call) = All IsTold call.recipients

    call_for-IsTellingThem :
        (cfg : ChangeNotificationConfig) (render : String → Dict (List ℕ) → Result Rendered)
        (has_service : Bool) (c : Change) (cs : List Candidate)
        → cfg.exclude_actor ≡ true
        → is_null actor ≡ false
        → All IsChosen cs
        → Ensures IsTellingThem (call_for cfg render has_service (some actor) c cs)
    unfolding call_for without_actor
    call_for-IsTellingThem cfg render has_service c cs exclude given h =
        let left = keep (is_other actor) cs in
        rw (exclude, given)
          (if-elim (Ensures IsTellingThem) (is_none_left left) _ _ (λ n. tt)
            (λ s.
              bind-Ensures (λ _. Unit) IsTellingThem (text_of cfg.template_name render c) _
                (anything (text_of cfg.template_name render c))
                (λ text _.
                  bind-Ensures (All IsTold) IsTellingThem
                    (recipient_dicts cfg.default_channels left) _
                    (recipient_dicts-IsTold cfg.default_channels left
                      (All-keep_tested IsChosen (is_other actor) cs h))
                    (λ recipients k. if-elim IsTellingThem has_service _ _ (λ t. k) (λ f. tt)))))
      where
        anything : (found : Result (List ℕ × List ℕ)) → Ensures (λ _. Unit) found
        anything (err e) = tt
        anything (ok a) = tt

    -- Where the hook leaves the choice to the default, the user who made the change is known, and
    -- the configuration leaves the actor out: all that are told are active users of the table who are
    -- superusers or opted in, and none of them has the actor's id.
    pub dispatch_model_change-IsTellingThem :
        (cfg : ChangeNotificationConfig) (render : String → Dict (List ℕ) → Result Rendered)
        (has_service : Bool) (c : Change) (told : Option Call)
        → cfg.exclude_actor ≡ true
        → is_null actor ≡ false
        → dispatch_model_change cfg none (some users) preferences render has_service (some actor) c
          ≡ ok told
        → IsTellingThem told
    unfolding dispatch_model_change
    dispatch_model_change-IsTellingThem cfg render has_service c told exclude given e =
        Ensures-eq IsTellingThem
          (dispatch_model_change cfg none (some users) preferences render has_service (some actor)
            c)
          told
          (if-elim (Ensures IsTellingThem) (not cfg.enabled) _ _ (λ off. tt)
            (λ on.
              if-elim (Ensures IsTellingThem) (not (any (λ e. e == c.event) cfg.events)) _ _
                (λ n. tt)
                (λ s.
                  call_for-IsTellingThem cfg render has_service c
                    (default_recipients cfg.default_channels users preferences) exclude given
                    (default_recipients-IsChosen cfg.default_channels))))
          e
