-- ===== src/Client/Connection/Events/Destroyed.antt =====
-- A client that is destroyed is inert, whatever still happens to it.
use cf_sync.Base.Text.{text}
use cf_sync.Base.{Bool, List, [], arith, false, refl, subst, sym, true, ◌++◌, ◌∙◌, ◌∷◌, ◌≡◌}
use cf_sync.Client.Connection.Events.Stopped.{
  Inert, IsStopped, confirm_timeout-stopped, destroy-stopped, enqueue_mutation-stopped,
  finish_hydration-stopped, flush_push-stopped, heartbeat_tick-stopped, on_close-stopped,
  on_open-stopped, on_socket_message-stopped, register_table-stopped, start-stopped,
  timer_fired-stopped, token_settled-stopped, wake-stopped,
}
use cf_sync.Client.Connection.Events.{
  Event, confirm_due, destroy_called, handle_event, handle_events, heartbeat_due, hydration_done,
  mutate_called, push_due, socket_closed, socket_message, socket_opened, start_called,
  table_registered, timer_due, token_call_done, wake_due,
}
use cf_sync.Client.Connection.Lifecycle.{destroy, settle_hydrated, shutdown}
use cf_sync.Client.Connection.{ClientOptions, Connection}
use cf_sync.Client.Receive.{fatal, rejections}
use cf_sync.Server.SqlRows.{live}

module _ {Json : Type 0} (options : ClientOptions) where
  handle_event-stopped :
      (created : Bool) (event : Event Json) (x : Connection Json)
      → IsStopped x
      → Inert x (handle_event options created event x)
  unfolding handle_event
  handle_event-stopped created start_called x i = start-stopped options x i created
  handle_event-stopped created (hydration_done key result) x i =
      finish_hydration-stopped options x i created key result
  handle_event-stopped created (token_call_done epoch resolved) x i =
      token_settled-stopped options x i created resolved epoch
  handle_event-stopped created (wake_due reachable) x i = wake-stopped options x i created reachable
  handle_event-stopped created (timer_due h) x i = timer_fired-stopped options x i created h
  handle_event-stopped created (socket_opened now n) x i = on_open-stopped options x i now n
  handle_event-stopped created (socket_message now n msg) x i =
      on_socket_message-stopped options x i now n msg
  handle_event-stopped created (socket_closed n code) x i =
      on_close-stopped options x i created n code
  handle_event-stopped created (heartbeat_due now) x i = heartbeat_tick-stopped options x i now
  handle_event-stopped created (mutate_called key name args seed) x i =
      enqueue_mutation-stopped options x i key name args seed
  handle_event-stopped created (confirm_due key) x i = confirm_timeout-stopped options x i key
  handle_event-stopped created (table_registered tbl) x i = register_table-stopped options x i tbl
  handle_event-stopped created push_due x i = flush_push-stopped options x i
  handle_event-stopped created destroy_called x i = destroy-stopped options x i

  handle_events-stopped :
      (events : List (Bool × Event Json)) (x : Connection Json)
      → IsStopped x
      → Inert x (handle_events options events x)
  unfolding handle_events
  handle_events-stopped [] x i = (i, refl, refl)
  handle_events-stopped ((created, event) ∷ rest) x i =
      let (j, sent, rows) = handle_event-stopped created event x i in
      let (k, sent', rows') = handle_events-stopped rest (handle_event options created event x) j in
      (k, sent' ∙ sent, rows' ∙ rows)

  shutdown-IsStopped : (x : Connection Json) → IsStopped (shutdown (record x { destroyed = true }))
  unfolding shutdown fatal settle_hydrated
  shutdown-IsStopped x = (refl, ground arith, refl, refl, refl)

  settled-shutdown :
      (x : Connection Json)
      → (shutdown x).client.settled
        ≡ x.client.settled ++ rejections (text "Stopped") x.client.outbox
  unfolding shutdown fatal
  settled-shutdown x = refl

  destroy-live :
      (x : Connection Json)
      → x.destroyed ≡ false
      → destroy x ≡ shutdown (record x { destroyed = true })
  unfolding destroy
  destroy-live x live = ground (arith, live)

  -- Once a client that was live is destroyed, every mutation that waited has been rejected as
  -- stopped, and whatever happens afterwards, a late frame, token, timer or load included, it stays
  -- stopped and without a socket, sends nothing more, and writes no row.
  pub destroy-Inert :
      (events : List (Bool × Event Json)) (x : Connection Json)
      → x.destroyed ≡ false
      → ((destroy x).client.settled
          ≡ x.client.settled ++ rejections (text "Stopped") x.client.outbox)
        × Inert (destroy x) (handle_events options events (destroy x))
  destroy-Inert events x live =
      subst
        (λ y.
          (y.client.settled ≡ x.client.settled ++ rejections (text "Stopped") x.client.outbox)
          × Inert y (handle_events options events y))
        (sym (destroy-live x live))
        (
          settled-shutdown (record x { destroyed = true }),
          handle_events-stopped events (shutdown (record x { destroyed = true }))
              (shutdown-IsStopped x),
        )
