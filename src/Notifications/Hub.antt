-- ===== src/Notifications/Hub.antt =====
-- `RealtimeNotificationHub` of fastapi_admin_kit/notifications/realtime.py. A websocket is the number
-- that it goes by, a queue has a name and its items, the oldest first, and the clock counts ticks.
-- Each method runs to its end before another: `publish` awaits only the sends, whose outcome is an
-- argument.
use fastapi_admin_kit.Base.{
  ℕ, suc, ◌+◌, String, Bool, not, ◌&&◌, ◌||◌, none, some, List, [], ◌∷◌, ◌++◌, keep, any, length,
  drop, nat_eq, ltb, leb, if◌then◌else◌,
}
use fastapi_admin_kit.Base.Dict.{Dict, lookup, lookup_or, contains, insert, erase}
use fastapi_admin_kit.Base.Result.{Result, ok, err, value_error, ◌>>=◌}

module _ (Payload : Type 0) where
  -- `maxsize` 0 is no limit.
  pub record Queue : Type 0 where
    pub name : ℕ
    pub maxsize : ℕ
    pub items : List Payload

  pub record Hub : Type 0 where
    pub ws : Dict (List ℕ)
    pub sse : Dict (List Queue)
    pub last_active : Dict ℕ

  abbrev pub discard : ℕ → List ℕ → List ℕ
  discard w ws = keep (λ v. not (nat_eq v w)) ws

  abbrev pub is_named : ℕ → Queue → Bool
  is_named name q = nat_eq q.name name

  abbrev pub discard_queue : ℕ → List Queue → List Queue
  discard_queue name qs = keep (λ q. not (is_named name q)) qs

  -- `set.add`
  abbrev pub add_socket : ℕ → List ℕ → List ℕ
  add_socket w ws = if any (λ v. nat_eq v w) ws then ws else ws ++ w ∷ []

  abbrev pub add_queue : Queue → List Queue → List Queue
  add_queue q qs = if any (is_named q.name) qs then qs else qs ++ q ∷ []

  unfoldable pub connect_ws : String → ℕ → ℕ → Hub → Hub
  connect_ws key w now h = record h {
    ws = insert key (add_socket w (lookup_or key [] h.ws)) h.ws;
    last_active = insert key now h.last_active;
  }

  -- What is left under the key is written back, or the key is taken out with its time.
  abbrev pub keep_sockets : String → List ℕ → Hub → Hub
  keep_sockets key [] h = record h { ws = erase key h.ws; last_active = erase key h.last_active }
  keep_sockets key (w ∷ ws) h = record h { ws = insert key (w ∷ ws) h.ws }

  unfoldable pub disconnect_ws : String → ℕ → Hub → Hub
  disconnect_ws key w h = elim (lookup key h.ws) [
    | none ↦ h
    | some conns ↦ keep_sockets key (discard w conns) h
  ]

  unfoldable pub connect_sse : String → Queue → ℕ → Hub → Hub
  connect_sse key q now h = record h {
    sse = insert key (add_queue q (lookup_or key [] h.sse)) h.sse;
    last_active = insert key now h.last_active;
  }

  abbrev pub keep_queues : String → List Queue → Hub → Hub
  keep_queues key [] h = record h { sse = erase key h.sse; last_active = erase key h.last_active }
  keep_queues key (q ∷ qs) h = record h { sse = insert key (q ∷ qs) h.sse }

  unfoldable pub disconnect_sse : String → ℕ → Hub → Hub
  disconnect_sse key name h = elim (lookup key h.sse) [
    | none ↦ h
    | some queues ↦ keep_queues key (discard_queue name queues) h
  ]

  unfoldable pub connection_count : String → Hub → ℕ
  connection_count key h = length (lookup_or key [] h.ws) + length (lookup_or key [] h.sse)

  abbrev pub is_full : Queue → Bool
  is_full q = ltb 0 q.maxsize && leb q.maxsize (length q.items)

  -- `put_nowait`, after `get_nowait` on a full queue.
  unfoldable pub push_item : Payload → Queue → Queue
  push_item payload q = record q {
    items = (if is_full q then drop 1 q.items else q.items) ++ payload ∷ [];
  }

  abbrev pub push_all : Payload → List Queue → List Queue
  push_all payload [] = []
  push_all payload (q ∷ qs) = push_item payload q ∷ push_all payload qs

  -- The loop over the sockets, with the number of deliveries.
  unfoldable pub publish_ws : (ℕ → Bool) → String → ℕ → List ℕ → Hub → ℕ × Hub
  publish_ws sends key now [] h = (0, h)
  publish_ws sends key now (w ∷ ws) h =
      if sends w
      then (let rest =
            publish_ws sends key now ws (record h { last_active = insert key now h.last_active }) in
          (suc rest.0, rest.1))
      else publish_ws sends key now ws (disconnect_ws key w h)

  -- The loop over the queues changes each queue in place; a full one is not counted.
  unfoldable pub publish_sse : String → Payload → Hub → ℕ × Hub
  publish_sse key payload h = elim (lookup key h.sse) [
    | none ↦ (0, h)
    | some queues ↦ (
      length (keep (λ q. not (is_full q)) queues),
      record h { sse = insert key (push_all payload queues) h.sse },
    )
  ]

  unfoldable pub publish : (ℕ → Bool) → String → ℕ → Payload → Hub → ℕ × Hub
  publish sends key now payload h =
      let (over_ws, h') = publish_ws sends key now (lookup_or key [] h.ws) h in
      let (over_sse, h'') = publish_sse key payload h' in (over_ws + over_sse, h'')

  unfoldable pub is_connected : String → Hub → Bool
  is_connected key h = contains key h.ws || contains key h.sse

  -- `queue.put_nowait({"type": "close"})`, which raises on a full queue; the queues before it have
  -- got the item.
  unfoldable pub close_queues : Payload → List Queue → Result (List Queue)
  close_queues closing [] = ok []
  close_queues closing (q ∷ qs) =
      if is_full q
      then err value_error
      else (close_queues closing qs >>= λ rest. ok (push_item closing q ∷ rest))

  -- One stale user: the connections that are counted, and the hub without them.
  unfoldable pub prune_one : Payload → String → Hub → Result (ℕ × Hub)
  prune_one closing key h = close_queues closing (lookup_or key [] h.sse) >>= λ closed. ok (
    connection_count key h,
    record { ws = erase key h.ws; sse = erase key h.sse; last_active = erase key h.last_active },
  )

  -- The loop over the items that `_last_active` had at its start.
  unfoldable pub prune_each : Payload → ℕ → ℕ → Dict ℕ → Hub → Result (ℕ × Hub)
  prune_each closing now max_idle [] h = ok (0, h)
  prune_each closing now max_idle ((key, last) ∷ later) h =
      if ltb (last + max_idle) now
      then (prune_one closing key h >>= λ one.
          prune_each closing now max_idle later one.1 >>= λ rest. ok (one.0 + rest.0, rest.1))
      else prune_each closing now max_idle later h

  unfoldable pub prune_stale : Payload → ℕ → ℕ → Hub → Result (ℕ × Hub)
  prune_stale closing now max_idle h = prune_each closing now max_idle h.last_active h
