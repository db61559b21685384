-- ===== src/Client/Connection/Lifecycle.antt =====
-- The lifecycle of `SyncClient`: start, #connect, #openSocket, #onDisconnect, the heartbeat, #shutdown.
use cf_sync.Base.JsMap
use cf_sync.Base.JsMap.{JsMap}
use cf_sync.Base.Text.{Text, text}
use cf_sync.Base.{
  Bool, Option, [], false, if◌then◌else◌, list_eq, ltb, nat_eq, none, not, pair_eq, some, true, ℕ,
  ◌++◌, ◌+◌, ◌==◌, ◌||◌, ◌∷◌,
}
use cf_sync.Client.Connection.{
  AuthToken, ClientOptions, Connection, backoff, clear_timer, close_call, code_text, connecting,
  fixed, idle, in_fatal, is_fatal, is_pending, is_reconnecting, no_token, provider, reconnecting,
  without,
}
use cf_sync.Client.Presence.{presence_disconnected}
use cf_sync.Client.Receive.{fatal}
use cf_sync.Client.{SyncClient}
use cf_sync.Protocol.Messages.{close_refresh, is_permanent_close_code}

module _ {Json : Type 0} where
  abbrev pub offline : SyncClient Json → SyncClient Json
  offline c = record c { connected = false }

  unfoldable pub schedule_reconnect : ClientOptions → Connection Json → Connection Json
  unfolding backoff
  schedule_reconnect options x = if x.stopped || is_fatal x.status then x else record x {
    status = reconnecting;
    attempt = x.attempt + 1;
    handles = x.handles + 1;
    reconnect_timer = some x.handles;
    timers = JsMap.set x.handles (backoff options x.attempt) x.timers;
  }

  -- `created`: whether `createSocket` returned.
  unfoldable pub open_socket : ClientOptions → Bool → Connection Json → Connection Json
  unfolding schedule_reconnect
  open_socket options created x =
      if created
      then record x {
        socket = some x.handles;
        handles = x.handles + 1;
        client = record x.client { connected = false; synced_this_connection = false };
      }
      else schedule_reconnect options (record x { socket = none; client = offline x.client })

  -- The rest of `#connect`, by the kind of token.
  unfoldable pub open_with : ClientOptions → Bool → AuthToken → Connection Json → Connection Json
  unfolding open_socket
  open_with options created no_token x = open_socket options created x
  open_with options created fixed x = open_socket options created x
  open_with options created provider x = record x { token_calls = x.connect_epoch ∷ x.token_calls }

  unfoldable pub connect : ClientOptions → Bool → Connection Json → Connection Json
  unfolding open_with
  connect options created x =
      if x.stopped
      then x
      else open_with options created options.auth_token
          (record x { connect_epoch = x.connect_epoch + 1 })

  -- The call for `epoch` has been settled, with a token or with an error.
  unfoldable pub token_settled : ClientOptions → Bool → ℕ → Bool → Connection Json → Connection Json
  unfolding open_socket schedule_reconnect
  token_settled options created epoch resolved x =
      let next = record x { token_calls = without epoch x.token_calls } in
      if not (is_pending epoch x.token_calls) || x.stopped || not (epoch == x.connect_epoch)
      then next
      else if resolved
      then open_socket options created next
      else schedule_reconnect options (record next { socket = none; client = offline x.client })

  unfoldable pub settle_hydrated : Bool → Connection Json → Connection Json
  settle_hydrated restored x =
      if x.settle_hydration then record x { settle_hydration = false; hydrated = restored } else x

  -- No result is an error.
  unfoldable pub start : ClientOptions → Bool → Connection Json → Option (Connection Json)
  unfolding settle_hydrated connect
  start options created x =
      if x.destroyed
      then none
      else if x.started
      then some x
      else if options.durable
      then some (record x { started = true; status = connecting; hydrating = true })
      else some (
          connect options created
            (settle_hydrated false (record x { started = true; status = connecting })))

  -- `document` is not hidden and `navigator` is not offline where `reachable`.
  unfoldable pub wake : ClientOptions → Bool → Bool → Connection Json → Connection Json
  unfolding connect
  wake options created reachable x =
      if x.stopped || not (is_reconnecting x.status) || not reachable
      then x
      else connect options created
          (record x { timers = clear_timer x.reconnect_timer x.timers; reconnect_timer = none })

  unfoldable pub timer_fired : ClientOptions → Bool → ℕ → Connection Json → Connection Json
  unfolding connect
  timer_fired options created h x =
      if JsMap.has h x.timers
      then connect options created (record x { timers = JsMap.delete h x.timers })
      else x

  -- The entries that wait are settled as `#fatal` settles them.
  unfoldable pub shutdown : Connection Json → Connection Json
  unfolding settle_hydrated fatal
  shutdown x = record (settle_hydrated false x) {
    stopped = true;
    timers = clear_timer x.reconnect_timer x.timers;
    heartbeat = false;
    client = fatal (text "Stopped") x.client;
    socket = none;
    closed = x.closed ++ close_call x.socket 1000;
    status = idle;
  }

  unfoldable pub destroy : Connection Json → Connection Json
  unfolding shutdown
  destroy x = if x.destroyed then x else shutdown (record x { destroyed = true })

  unfoldable pub go_fatal : Text → Connection Json → Connection Json
  unfolding fatal
  go_fatal code x = record x {
    status = in_fatal;
    heartbeat = false;
    client = fatal code x.client;
    socket = none;
    closed = x.closed ++ close_call x.socket 1000;
  }

  -- What a lost socket takes with it.
  abbrev pub drop_socket : Connection Json → Connection Json
  drop_socket x = record x {
    socket = none;
    heartbeat = false;
    client = record (presence_disconnected x.client) {
      connected = false;
      poke = none;
      awaiting_catch_up = false;
    };
  }

  unfoldable pub on_refresh : ClientOptions → Bool → Connection Json → Connection Json
  unfolding connect schedule_reconnect
  on_refresh options created x =
      let next = record x { refresh_streak = x.refresh_streak + 1 } in
      if x.refresh_streak == 0
      then connect options created (record next { status = reconnecting })
      else schedule_reconnect options next

  unfoldable pub on_disconnect : ClientOptions → Bool → Option ℕ → Connection Json → Connection Json
  unfolding go_fatal on_refresh schedule_reconnect
  on_disconnect options created none x = schedule_reconnect options (drop_socket x)
  on_disconnect options created (some code) x =
      if is_permanent_close_code code
      then go_fatal (code_text code) (drop_socket x)
      else if code == close_refresh
      then on_refresh options created (drop_socket x)
      else schedule_reconnect options (drop_socket x)

  abbrev pub idle_check : ClientOptions → ℕ → Option ℕ → Connection Json → Connection Json
  idle_check options now none x = x
  idle_check options now (some n) x =
      if ltb (x.last_frame_at + options.idle_timeout_ms) now
      then schedule_reconnect options
          (record (drop_socket x) { closed = x.closed ++ (n, 4408) ∷ [] })
      else x

  -- The ping of a socket that is not idle is left out.
  unfoldable pub heartbeat_tick : ClientOptions → ℕ → Connection Json → Connection Json
  unfolding schedule_reconnect
  heartbeat_tick options now x = if x.heartbeat then idle_check options now x.socket x else x
