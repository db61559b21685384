-- ===== src/Client/Connection/Events/Alive.antt =====
-- Whatever happens to it, a client that is started is never stuck.
use cf_sync.Base.{
  Bool, List, Option, [], arith, both_branches, false, is_some, none, not, refl, some, subst, sym,
  true, ℕ, ◌&&◌, ◌||◌, ◌∷◌, ◌≡◌,
}
use cf_sync.Client.Connection.Alive.{
  IsAlive, IsPaced, clear_timer-IsPaced, connect-IsAlive, heartbeat_tick-IsAlive,
  on_disconnect-IsAlive, start-IsAlive, timer_fired-IsAlive, timers-settle_hydrated,
  token_settled-IsAlive, waits, wake-IsAlive,
}
use cf_sync.Client.Connection.Events.{
  Event, confirm_due, confirm_timeout, destroy_called, enqueue_mutation, finish_hydration,
  handle_event, handle_events, heartbeat_due, in_outbox, hydration_done, is_fatal_frame,
  mutate_called, on_close, on_open, on_socket_message, push_due, socket_closed, socket_message,
  socket_opened, start_called, table_registered, timer_due, token_call_done, wake_due,
}
use cf_sync.Client.Connection.Lifecycle.{destroy, settle_hydrated, shutdown}
use cf_sync.Client.Connection.{ClientOptions, Connection, is_current}
use cf_sync.Client.Hydrate.{Loaded, hydrate}
use cf_sync.Client.Receive.{on_message}
use cf_sync.Protocol.Messages.{ServerMsg}

is_current-some :
    (n : ℕ) (socket : Option ℕ) → not (is_current n socket) ≡ false → is_some socket ≡ true
is_current-some n none h = ground (arith, h)
is_current-some n (some m) h = refl

-- A client with a socket is alive, whatever its status.
is_current-alive :
    {Json : Type 0} (n : ℕ) (x : Connection Json)
    → not (is_current n x.socket) ≡ false
    → (not x.started || x.stopped || false || waits x) ≡ true
is_current-alive n x current = ground (arith, is_current-some n x.socket current)

module _ {Json : Type 0} (options : ClientOptions) where
  abbrev Kept : Connection Json → Type 0
  Kept = IsAlive options

  on_close-IsAlive :
      (created : Bool) (n : ℕ) (code : Option ℕ) (x : Connection Json)
      → IsAlive options x
      → IsAlive options (on_close options created n code x)
  unfolding on_close
  on_close-IsAlive created n code x (a, p) =
      both_branches Kept (is_current n x.socket)
        (λ current. on_disconnect-IsAlive options created code x p) (λ stale. (a, p))

  on_socket_message-IsAlive :
      (now n : ℕ) (msg : ServerMsg Json) (x : Connection Json)
      → IsAlive options x
      → IsAlive options (on_socket_message now n msg x)
  unfolding on_socket_message
  on_socket_message-IsAlive now n msg x (a, p) =
      let client = on_message msg x.client in
      both_branches Kept (not (is_current n x.socket)) (λ stale. (a, p))
        (λ current.
          both_branches Kept (is_fatal_frame msg) (λ ends. (ground arith, p))
            (λ goes.
              both_branches Kept
                (client.synced_this_connection && not x.client.synced_this_connection)
                (λ first. (is_current-alive n x current, p)) (λ other. (a, p))))

  on_open-IsAlive :
      (now n : ℕ) (x : Connection Json)
      → IsAlive options x
      → IsAlive options (on_open options now n x)
  unfolding on_open
  on_open-IsAlive now n x (a, p) =
      both_branches Kept (not (is_current n x.socket)) (λ stale. (a, p))
        (λ current. (is_current-alive n x current, p))

  finish_hydration-IsAlive :
      (created : Bool) (key : ℕ) (result : Loaded Json) (x : Connection Json)
      → IsAlive options x
      → IsAlive options (finish_hydration options created key result x)
  unfolding finish_hydration
  finish_hydration-IsAlive created key result x (a, p) =
      let (restored, client) = hydrate x.stopped key result x.client in
      let next : Connection Json = record x { hydrating = false; client = client } in
      both_branches Kept (not x.hydrating) (λ idle. (a, p))
        (λ busy.
          connect-IsAlive options created (settle_hydrated restored next)
            (subst (IsPaced options) (sym (timers-settle_hydrated options restored next)) p))

  confirm_timeout-IsAlive :
      (key : ℕ) (x : Connection Json)
      → IsAlive options x
      → IsAlive options (confirm_timeout options key x)
  unfolding confirm_timeout
  confirm_timeout-IsAlive key x (a, p) =
      both_branches Kept (options.durable || not (in_outbox key x.client.outbox)) (λ off. (a, p))
        (λ on. (a, p))

  destroy-IsAlive : (x : Connection Json) → IsAlive options x → IsAlive options (destroy x)
  unfolding destroy shutdown
  destroy-IsAlive x (a, p) =
      both_branches Kept x.destroyed (λ over. (a, p))
        (λ live. (ground arith, clear_timer-IsPaced options x.reconnect_timer x.timers p))

  handle_event-IsAlive :
      (created : Bool) (event : Event Json) (x : Connection Json)
      → IsAlive options x
      → IsAlive options (handle_event options created event x)
  unfolding handle_event enqueue_mutation
  handle_event-IsAlive created start_called x i = start-IsAlive options created x i
  handle_event-IsAlive created (hydration_done key result) x i =
      finish_hydration-IsAlive created key result x i
  handle_event-IsAlive created (token_call_done epoch resolved) x i =
      token_settled-IsAlive options created resolved epoch x i
  handle_event-IsAlive created (wake_due reachable) x i = wake-IsAlive options created reachable x i
  handle_event-IsAlive created (timer_due h) x i = timer_fired-IsAlive options created h x i
  handle_event-IsAlive created (socket_opened now n) x i = on_open-IsAlive now n x i
  handle_event-IsAlive created (socket_message now n msg) x i =
      on_socket_message-IsAlive now n msg x i
  handle_event-IsAlive created (socket_closed n code) x i = on_close-IsAlive created n code x i
  handle_event-IsAlive created (heartbeat_due now) x i = heartbeat_tick-IsAlive options now x i
  handle_event-IsAlive created (mutate_called key name args seed) x i = i
  handle_event-IsAlive created (confirm_due key) x i = confirm_timeout-IsAlive key x i
  handle_event-IsAlive created (table_registered tbl) x i = i
  handle_event-IsAlive created push_due x i = i
  handle_event-IsAlive created destroy_called x i = destroy-IsAlive x i

  -- A client, as long as it is started and neither stopped nor in a fatal state, holds a socket,
  -- or waits for its store, for the token of its last attempt or for a timer, and the delay of
  -- every timer is within the cap: where this holds it holds after whatever events, in whatever
  -- order.
  pub handle_events-IsAlive :
      (events : List (Bool × Event Json)) (x : Connection Json)
      → IsAlive options x
      → IsAlive options (handle_events options events x)
  unfolding handle_events
  handle_events-IsAlive [] x i = i
  handle_events-IsAlive ((created, event) ∷ rest) x i =
      handle_events-IsAlive rest (handle_event options created event x)
        (handle_event-IsAlive created event x i)
