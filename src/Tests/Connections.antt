-- ===== src/Tests/Connections.antt =====
-- The client's lifecycle on a client of one to-do.
use cf_sync.Base.JsMap
use cf_sync.Base.JsMap.{JsMap}
use cf_sync.Base.Text.{Text, text}
use cf_sync.Base.{
  Bool, List, [], false, if◌then◌else◌, list_eq, nat_eq, none, pair_eq, refl, some, true, ◌++◌, ◌∷◌,
  ◌≡◌,
}
use cf_sync.Client.Connection.Alive.{IsAlive}
use cf_sync.Client.Connection.Events.Alive.{handle_events-IsAlive}
use cf_sync.Client.Connection.Events.Destroyed.{destroy-Inert}
use cf_sync.Client.Connection.Events.Stopped.{Inert}
use cf_sync.Client.Connection.Events.{
  Event, handle_event, handle_events, on_close, on_open, socket_closed, socket_opened, start_called,
  timer_due, token_call_done,
}
use cf_sync.Client.Connection.Lifecycle.{
  connect, destroy, on_disconnect, on_refresh, open_socket, open_with, schedule_reconnect,
  settle_hydrated, start, timer_fired, token_settled,
}
use cf_sync.Client.Connection.{ClientOptions, backoff, new_connection, provider}
use cf_sync.Client.Hydrate.Restores.{hydrate-save_outbox}
use cf_sync.Client.Hydrate.{hydrate, loaded}
use cf_sync.Client.Receive.Assembly.Converges.{every_table}
use cf_sync.Client.Receive.{rejections}
use cf_sync.Client.Store.{MemorySyncStore, empty_store, load, outbox_snapshot, save_outbox}
use cf_sync.Client.{OutboxEntry, SyncClient, pushed, send, send_hello}
use cf_sync.Protocol.Messages.{is_permanent_close_code}
use cf_sync.Tests.Fixture.{alice, first_id, milk, todos}
use cf_sync.Tests.Histories.{start_cursor}

abbrev options : ClientOptions
options = record {
  auth_token = provider;
  max_backoff_ms = 30000;
  ping_interval_ms = 25000;
  idle_timeout_ms = 55000;
  durable = false;
}

abbrev saved_entry : OutboxEntry Text
saved_entry = record { key = 0; id = some 4; name = text "add"; args = milk; seed = text "s" }

-- A client with a mutation that was never confirmed, and one that starts afresh.
abbrev old_client : SyncClient Text
old_client = record {
  client_id = alice;
  schema_version = 1;
  registered = every_table;
  connected = false;
  cursor = none;
  confirmed_lmid = 0;
  outbox = saved_entry ∷ [];
  poke = none;
  synced_this_connection = false;
  awaiting_catch_up = false;
  needs_rebase = false;
  push_scheduled = false;
  rows = [];
  sent = [];
  settled = [];
  presence_live = false;
  presence_state = none;
  presence_peers = [];
}

abbrev new_client : SyncClient Text
new_client = record old_client { outbox = [] }

-- A token, a socket that opens and is refreshed twice, and the timer of the second time.
abbrev a_life : List (Bool × Event Text)
a_life =
    (true, start_called)
    ∷ (true, token_call_done 1 true)
    ∷ (true, socket_opened 1000 0)
    ∷ (true, socket_closed 0 (some 4300))
    ∷ (true, token_call_done 2 true)
    ∷ (true, socket_opened 2000 1)
    ∷ (true, socket_closed 1 (some 4300))
    ∷ (true, timer_due 2)
    ∷ []

handle_events-IsAlive_example :
    IsAlive options (handle_events options a_life (new_connection new_client))
handle_events-IsAlive_example =
    handle_events-IsAlive options a_life (new_connection new_client) (refl, tt)

-- The timer of the second refresh starts the third attempt.
third_attempt : (handle_events options a_life (new_connection new_client)).token_calls ≡ 3 ∷ []
unfolding handle_events handle_event start connect open_with open_socket token_settled on_open
    on_close on_disconnect on_refresh schedule_reconnect timer_fired settle_hydrated send_hello send
    is_permanent_close_code backoff JsMap.set JsMap.delete JsMap.get
third_attempt = refl

destroy-Inert_example :
    let x = new_connection old_client in
    ((destroy x).client.settled ≡ x.client.settled ++ rejections (text "Stopped") x.client.outbox)
    × Inert (destroy x) (handle_events options a_life (destroy x))
destroy-Inert_example = destroy-Inert options a_life (new_connection old_client) refl

abbrev milk_store : MemorySyncStore Text
milk_store = record empty_store {
  cursor = some start_cursor;
  schema_version = some 1;
  rows = ((todos, first_id), milk) ∷ [];
  has_state = true;
}

milk_store-Distinct : JsMap.Distinct milk_store.rows
unfolding JsMap.get
milk_store-Distinct = (refl, tt)

hydrate-save_outbox_example :
    let saved =
      save_outbox (outbox_snapshot old_client.outbox) old_client.confirmed_lmid milk_store in
    let (restored, c) = hydrate false 7 (loaded (load saved)) new_client in
    (restored ≡ true)
    × (c.cursor ≡ some start_cursor)
    × (c.confirmed_lmid ≡ old_client.confirmed_lmid)
    × (pushed c.confirmed_lmid c.outbox ≡ pushed old_client.confirmed_lmid old_client.outbox)
    × (JsMap.get (todos, first_id) c.rows ≡ (
        if new_client.registered todos then JsMap.get (todos, first_id) milk_store.rows else none))
hydrate-save_outbox_example =
    hydrate-save_outbox 7 start_cursor milk_store old_client new_client todos first_id refl refl
      milk_store-Distinct refl refl
