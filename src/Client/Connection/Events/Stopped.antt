-- ===== src/Client/Connection/Events/Stopped.antt =====
-- A client that is destroyed is inert.
use cf_sync.Base.JsMap
use cf_sync.Base.JsMap.{JsMap}
use cf_sync.Base.Text.{Text}
use cf_sync.Base.{
  Bool, Option, [], arith, both_branches, false, list_beq, list_eq, nat_eq, none, not, or_else,
  pair_eq, refl, some, subst, sym, true, ℕ, ◌&&◌, ◌==◌, ◌||◌, ◌≡◌,
}
use cf_sync.Client.Connection.Events.{
  confirm_timeout, enqueue_mutation, finish_hydration, in_outbox, on_close, on_open,
  on_socket_message, register_table,
}
use cf_sync.Client.Connection.Lifecycle.{
  connect, destroy, heartbeat_tick, idle_check, settle_hydrated, start, timer_fired, token_settled,
  wake,
}
use cf_sync.Client.Connection.{
  ClientOptions, Connection, is_current, is_fatal, is_pending, is_reconnecting,
}
use cf_sync.Client.Hydrate.{Loaded, hydrate, load_failed, loaded}
use cf_sync.Client.Receive.{request_full_resync}
use cf_sync.Client.{SyncClient, flush_push, pushed}
use cf_sync.Protocol.Chunk.{nonempty}
use cf_sync.Protocol.Messages.{ServerMsg}

-- Stopped for good: nothing waits, nothing is connected, and the app has to build another client.
abbrev pub IsStopped : {Json : Type 0} → Connection Json → Type 0
IsStopped x =
    (x.stopped ≡ true)
    × (x.destroyed ≡ true)
    × (x.socket ≡ none)
    × (x.client.connected ≡ false)
    × (x.client.outbox ≡ [])

-- Nothing more is sent, and no row changes.
abbrev pub Inert : {Json : Type 0} → Connection Json → Connection Json → Type 0
Inert x x' = IsStopped x' × (x'.client.sent ≡ x.client.sent) × (x'.client.rows ≡ x.client.rows)

-- A socket of the past is not the current one.
not_current : (n : ℕ) (socket : Option ℕ) → socket ≡ none → is_current n socket ≡ false
not_current n none h = refl
not_current n (some m) h = ground (arith, h)

hydrate-stopped :
    {Json : Type 0} (stopped : Bool) (key : ℕ) (result : Loaded Json) (c : SyncClient Json)
    → stopped ≡ true
    → hydrate stopped key result c ≡ (false, c)
unfolding hydrate
hydrate-stopped stopped key load_failed c h = refl
hydrate-stopped stopped key (loaded none) c h = refl
hydrate-stopped stopped key (loaded (some state)) c h = rw h refl

module _ {Json : Type 0} (options : ClientOptions) (x : Connection Json) (i : IsStopped x) where
  is_stopped : x.stopped ≡ true
  is_stopped = i.0

  is_destroyed : x.destroyed ≡ true
  is_destroyed = i.1

  no_socket : x.socket ≡ none
  no_socket = i.2

  not_connected : x.client.connected ≡ false
  not_connected = i.3

  none_in_outbox : (key : ℕ) → in_outbox key x.client.outbox ≡ false
  none_in_outbox key = subst (λ o. in_outbox key o ≡ false) (sym i.4) refl

  -- Only fields that play no part have changed.
  abbrev Still : Connection Json → Type 0
  Still = Inert x

  itself : Inert x x
  itself = (i, refl, refl)

  pub connect-stopped :
      (created : Bool) (y : Connection Json)
      → y.stopped ≡ true
      → Still y
      → Still (connect options created y)
  unfolding connect
  connect-stopped created y over still =
      both_branches Still y.stopped (λ on. still) (λ off. ground (arith, over, off))

  pub start-stopped : (created : Bool) → Still (or_else (start options created x) x)
  unfolding start
  start-stopped created =
      both_branches (λ o. Still (or_else o x)) x.destroyed (λ over. itself)
        (λ live. ground (arith, is_destroyed, live))

  pub settled-stopped :
      (created restored : Bool)
      → Still (connect options created (settle_hydrated restored (record x { hydrating = false })))
  unfolding settle_hydrated
  settled-stopped created restored =
      both_branches (λ y. Still (connect options created y)) x.settle_hydration
        (λ waits.
          connect-stopped created
            (record x { hydrating = false; settle_hydration = false; hydrated = restored })
            is_stopped (i, refl, refl))
        (λ done.
          connect-stopped created (record x { hydrating = false }) is_stopped (i, refl, refl))

  pub finish_hydration-stopped :
      (created : Bool) (key : ℕ) (result : Loaded Json)
      → Still (finish_hydration options created key result x)
  unfolding finish_hydration
  finish_hydration-stopped created key result =
      both_branches Still (not x.hydrating) (λ idle. itself)
        (λ busy.
          subst
            (λ h. Still (
              connect options created
                (settle_hydrated h.0 (record x { hydrating = false; client = h.1 }))))
            (sym (hydrate-stopped x.stopped key result x.client is_stopped))
            (settled-stopped created false))

  pub token_settled-stopped :
      (created resolved : Bool) (epoch : ℕ) → Still (token_settled options created epoch resolved x)
  unfolding token_settled
  token_settled-stopped created resolved epoch =
      both_branches Still
        (not (is_pending epoch x.token_calls) || x.stopped || not (epoch == x.connect_epoch))
        (λ stale. (i, refl, refl)) (λ current. ground (arith, is_stopped, current))

  pub wake-stopped : (created reachable : Bool) → Still (wake options created reachable x)
  unfolding wake
  wake-stopped created reachable =
      both_branches Still (x.stopped || not (is_reconnecting x.status) || not reachable)
        (λ off. itself) (λ on. ground (arith, is_stopped, on))

  pub timer_fired-stopped : (created : Bool) (h : ℕ) → Still (timer_fired options created h x)
  unfolding timer_fired
  timer_fired-stopped created h =
      both_branches Still (JsMap.has h x.timers)
        (λ there.
          connect-stopped created (record x { timers = JsMap.delete h x.timers }) is_stopped
            (i, refl, refl))
        (λ gone. itself)

  pub on_open-stopped : (now n : ℕ) → Still (on_open options now n x)
  unfolding on_open
  on_open-stopped now n =
      both_branches Still (not (is_current n x.socket)) (λ stale. itself)
        (λ current. ground (arith, not_current n x.socket no_socket, current))

  pub on_socket_message-stopped :
      (now n : ℕ) (msg : ServerMsg Json) → Still (on_socket_message now n msg x)
  unfolding on_socket_message
  on_socket_message-stopped now n msg =
      both_branches Still (not (is_current n x.socket)) (λ stale. itself)
        (λ current. ground (arith, not_current n x.socket no_socket, current))

  pub on_close-stopped :
      (created : Bool) (n : ℕ) (code : Option ℕ) → Still (on_close options created n code x)
  unfolding on_close
  on_close-stopped created n code =
      both_branches Still (is_current n x.socket)
        (λ current. ground (arith, not_current n x.socket no_socket, current)) (λ stale. itself)

  pub heartbeat_tick-stopped : (now : ℕ) → Still (heartbeat_tick options now x)
  unfolding heartbeat_tick
  heartbeat_tick-stopped now =
      both_branches Still x.heartbeat
        (λ on. subst (λ socket. Still (idle_check options now socket x)) (sym no_socket) itself)
        (λ off. itself)

  pub enqueue_mutation-stopped :
      (key : ℕ) (name : Text) (args : Json) (seed : Text)
      → Still (enqueue_mutation key name args seed x)
  unfolding enqueue_mutation
  enqueue_mutation-stopped key name args seed =
      let with_client = λ (c : SyncClient Json). Still (record x { client = c }) in
      both_branches with_client (is_fatal x.status) (λ fatal. (i, refl, refl))
        (λ live.
          both_branches with_client x.stopped (λ over. (i, refl, refl))
            (λ on. ground (arith, is_stopped, on)))

  pub confirm_timeout-stopped : (key : ℕ) → Still (confirm_timeout options key x)
  unfolding confirm_timeout
  confirm_timeout-stopped key =
      both_branches Still (options.durable || not (in_outbox key x.client.outbox)) (λ off. itself)
        (λ on. ground (arith, on, none_in_outbox key))

  pub register_table-stopped :
      (tbl : Text) → Still (record x { client = or_else (register_table tbl x.client) x.client })
  unfolding register_table request_full_resync
  register_table-stopped tbl =
      let with_client = λ (c : SyncClient Json). Still (record x { client = c }) in
      let next : SyncClient Json = record x.client {
        registered = λ t. list_beq t tbl || x.client.registered t;
      } in
      both_branches (λ o. with_client (or_else o x.client)) (x.client.registered tbl)
        (λ again. itself)
        (λ new.
          both_branches with_client x.client.synced_this_connection
            (λ late.
              both_branches with_client x.client.connected (λ on. ground (arith, on, not_connected))
                (λ off. (i, refl, refl)))
            (λ early. (i, refl, refl)))

  pub flush_push-stopped : Still (record x { client = flush_push x.client })
  unfolding flush_push
  flush_push-stopped =
      both_branches (λ c. Still (record x { client = c }))
        (x.client.connected
          && x.client.synced_this_connection
          && nonempty (pushed x.client.confirmed_lmid x.client.outbox))
        (λ on. ground (arith, on, not_connected)) (λ off. (i, refl, refl))

  pub destroy-stopped : Still (destroy x)
  unfolding destroy
  destroy-stopped =
      both_branches Still x.destroyed (λ over. itself) (λ live. ground (arith, is_destroyed, live))
