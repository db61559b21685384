-- ===== src/Client/Connection/Events.antt =====
-- What happens to a `SyncClient`: calls of the app, its timers, and the events of its sockets.
-- Frames that are binary, or that do not parse, only count for the heartbeat and are left out.
pub mod Alive
pub mod Stopped
pub mod Destroyed
use cf_sync.Base.Text.{Text, text}
use cf_sync.Base.{
  Bool, List, Option, [], false, if◌then◌else◌, list_beq, list_eq, ltb, nat_eq, none, not, or_else,
  pair_eq, some, true, ℕ, ◌&&◌, ◌++◌, ◌==◌, ◌||◌, ◌∷◌,
}
use cf_sync.Client.Connection.Lifecycle.{
  connect, destroy, heartbeat_tick, on_disconnect, settle_hydrated, start, timer_fired,
  token_settled, wake,
}
use cf_sync.Client.Connection.{
  ClientOptions, Connection, in_fatal, is_current, is_fatal, synced, syncing,
}
use cf_sync.Client.Hydrate.{Loaded, hydrate}
use cf_sync.Client.Receive.{on_message, request_full_resync}
use cf_sync.Client.{OutboxEntry, SyncClient, enqueue, flush_push, send_hello}
use cf_sync.Protocol.Messages.{ServerMsg, error, unauthorized, version_not_supported}

pub data Event (Json : Type 0) : Type 0 where
  start_called : Event Json
  hydration_done : ℕ → Loaded Json → Event Json
  token_call_done : ℕ → Bool → Event Json
  wake_due : Bool → Event Json
  timer_due : ℕ → Event Json
  socket_opened : ℕ → ℕ → Event Json
  socket_message : ℕ → ℕ → ServerMsg Json → Event Json
  socket_closed : ℕ → Option ℕ → Event Json
  heartbeat_due : ℕ → Event Json
  mutate_called : ℕ → Text → Json → Text → Event Json
  confirm_due : ℕ → Event Json
  table_registered : Text → Event Json
  push_due : Event Json
  destroy_called : Event Json

-- The status that a frame sets.
abbrev pub is_fatal_frame : {Json : Type 0} → ServerMsg Json → Bool
is_fatal_frame (error version_not_supported) = true
is_fatal_frame (error unauthorized) = true
is_fatal_frame _ = false

module _ {Json : Type 0} where
  abbrev pub reject : ℕ → Text → SyncClient Json → SyncClient Json
  reject key code c = record c { settled = c.settled ++ (key, some code) ∷ [] }

  -- `#enqueue`
  unfoldable pub enqueue_mutation : ℕ → Text → Json → Text → Connection Json → Connection Json
  unfolding enqueue
  enqueue_mutation key name args seed x = record x {
    client =
        if is_fatal x.status
        then reject key (text "Fatal") x.client
        else if x.stopped
        then reject key (text "Stopped") x.client
        else enqueue key name args seed x.client;
  }

  abbrev pub in_outbox : ℕ → List (OutboxEntry Json) → Bool
  in_outbox key [] = false
  in_outbox key (entry ∷ rest) = entry.key == key || in_outbox key rest

  abbrev pub drop_entry : ℕ → List (OutboxEntry Json) → List (OutboxEntry Json)
  drop_entry key [] = []
  drop_entry key (entry ∷ rest) =
      if entry.key == key then drop_entry key rest else entry ∷ drop_entry key rest

  -- The confirm timer of a client without a store, which `#settleEntry` clears.
  unfoldable pub confirm_timeout : ClientOptions → ℕ → Connection Json → Connection Json
  confirm_timeout options key x =
      if options.durable || not (in_outbox key x.client.outbox) then x else record x {
        client = record (reject key (text "Timeout") x.client) {
          outbox = drop_entry key x.client.outbox;
        };
      }

  unfoldable pub finish_hydration :
      ClientOptions → Bool → ℕ → Loaded Json → Connection Json → Connection Json
  unfolding hydrate settle_hydrated connect
  finish_hydration options created key result x =
      if not x.hydrating
      then x
      else let (restored, client) = hydrate x.stopped key result x.client in
        connect options created
          (settle_hydrated restored (record x { hydrating = false; client = client }))

  unfoldable pub on_open : ClientOptions → ℕ → ℕ → Connection Json → Connection Json
  unfolding send_hello
  on_open options now n x = if not (is_current n x.socket) then x else record x {
    last_frame_at = now;
    heartbeat = ltb 0 options.ping_interval_ms;
    status = syncing;
    client = send_hello (record x.client { connected = true });
  }

  -- The part of `#applyPoke` that a first poke adds, and of `#onServerError` that a fatal one does.
  unfoldable pub on_socket_message : ℕ → ℕ → ServerMsg Json → Connection Json → Connection Json
  unfolding on_message
  on_socket_message now n msg x =
      let client = on_message msg x.client in
      if not (is_current n x.socket)
      then x
      else if is_fatal_frame msg
      then record x {
        last_frame_at = now;
        status = in_fatal;
        heartbeat = false;
        client = client;
        socket = none;
        closed = x.closed ++ (n, 1000) ∷ [];
      }
      else if client.synced_this_connection && not x.client.synced_this_connection
      then record x {
        last_frame_at = now;
        attempt = 0;
        refresh_streak = 0;
        status = synced;
        client = client;
      }
      else record x { last_frame_at = now; client = client }

  unfoldable pub on_close : ClientOptions → Bool → ℕ → Option ℕ → Connection Json → Connection Json
  unfolding on_disconnect
  on_close options created n code x =
      if is_current n x.socket then on_disconnect options created code x else x

  -- No result is an error.
  unfoldable pub register_table : Text → SyncClient Json → Option (SyncClient Json)
  unfolding request_full_resync
  register_table tbl c =
      if c.registered tbl
      then none
      else let next = record c { registered = λ t. list_beq t tbl || c.registered t } in
        some (if c.synced_this_connection then request_full_resync next else next)

  -- An event, where `createSocket` returns if `created`. An error leaves the client as it was.
  unfoldable pub handle_event :
      ClientOptions → Bool → Event Json → Connection Json → Connection Json
  unfolding start finish_hydration token_settled wake timer_fired on_open on_socket_message on_close
      heartbeat_tick enqueue_mutation confirm_timeout register_table flush_push destroy
  handle_event options created start_called x = or_else (start options created x) x
  handle_event options created (hydration_done key result) x =
      finish_hydration options created key result x
  handle_event options created (token_call_done epoch resolved) x =
      token_settled options created epoch resolved x
  handle_event options created (wake_due reachable) x = wake options created reachable x
  handle_event options created (timer_due h) x = timer_fired options created h x
  handle_event options created (socket_opened now n) x = on_open options now n x
  handle_event options created (socket_message now n msg) x = on_socket_message now n msg x
  handle_event options created (socket_closed n code) x = on_close options created n code x
  handle_event options created (heartbeat_due now) x = heartbeat_tick options now x
  handle_event options created (mutate_called key name args seed) x =
      enqueue_mutation key name args seed x
  handle_event options created (confirm_due key) x = confirm_timeout options key x
  handle_event options created (table_registered tbl) x = record x {
    client = or_else (register_table tbl x.client) x.client;
  }
  handle_event options created push_due x = record x { client = flush_push x.client }
  handle_event options created destroy_called x = destroy x

  unfoldable pub handle_events :
      ClientOptions → List (Bool × Event Json) → Connection Json → Connection Json
  unfolding handle_event
  handle_events options [] x = x
  handle_events options ((created, event) ∷ rest) x =
      handle_events options rest (handle_event options created event x)
