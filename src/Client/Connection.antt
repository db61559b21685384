-- ===== src/Client/Connection.antt =====
-- The connection lifecycle of packages/client/src/client.ts: sockets, tokens, backoff, heartbeat.
pub mod Alive
pub mod Events
pub mod Lifecycle
use cf_sync.Base.JsMap
use cf_sync.Base.JsMap.{JsMap}
use cf_sync.Base.Text.{Text}
use cf_sync.Base.{
  Bool, List, Option, [], false, if◌then◌else◌, leb, list_eq, nat_eq, none, pair_eq, some, true, ℕ,
  ◌%◌, ◌*◌, ◌+◌, ◌/◌, ◌==◌, ◌^◌, ◌||◌, ◌∷◌,
}
use cf_sync.Client.{SyncClient}

pub data SyncStatus : Type 0 where
  idle : SyncStatus
  connecting : SyncStatus
  syncing : SyncStatus
  synced : SyncStatus
  reconnecting : SyncStatus
  in_fatal : SyncStatus

-- `authToken`: a provider is called on every attempt.
pub data AuthToken : Type 0 where
  no_token : AuthToken
  fixed : AuthToken
  provider : AuthToken

-- The options of the constructor that the lifecycle reads; `durable` stands for a store.
pub record ClientOptions : Type 0 where
  pub auth_token : AuthToken
  pub max_backoff_ms : ℕ
  pub ping_interval_ms : ℕ
  pub idle_timeout_ms : ℕ
  pub durable : Bool

-- `client.connected` says that the socket is open. Sockets and timers are told apart by `handles`;
-- a timer stands with its delay before jitter, a token call with its epoch.
pub record Connection (Json : Type 0) : Type 0 where
  pub client : SyncClient Json
  pub status : SyncStatus
  pub started : Bool
  pub stopped : Bool
  pub destroyed : Bool
  pub hydrating : Bool
  pub hydrated : Bool
  pub settle_hydration : Bool
  pub attempt : ℕ
  pub refresh_streak : ℕ
  pub connect_epoch : ℕ
  pub token_calls : List ℕ
  pub handles : ℕ
  pub socket : Option ℕ
  pub reconnect_timer : Option ℕ
  pub timers : JsMap ℕ ℕ
  pub heartbeat : Bool
  pub last_frame_at : ℕ
  pub closed : List (ℕ × ℕ)

abbrev pub is_fatal : SyncStatus → Bool
is_fatal in_fatal = true
is_fatal idle = false
is_fatal connecting = false
is_fatal syncing = false
is_fatal synced = false
is_fatal reconnecting = false

abbrev pub is_reconnecting : SyncStatus → Bool
is_reconnecting reconnecting = true
is_reconnecting idle = false
is_reconnecting connecting = false
is_reconnecting syncing = false
is_reconnecting synced = false
is_reconnecting in_fatal = false

abbrev pub is_pending : ℕ → List ℕ → Bool
is_pending n [] = false
is_pending n (m ∷ rest) = m == n || is_pending n rest

abbrev pub without : ℕ → List ℕ → List ℕ
without n [] = []
without n (m ∷ rest) = if m == n then without n rest else m ∷ without n rest

abbrev pub clear_timer : Option ℕ → JsMap ℕ ℕ → JsMap ℕ ℕ
clear_timer none timers = timers
clear_timer (some h) timers = JsMap.delete h timers

abbrev pub close_call : Option ℕ → ℕ → List (ℕ × ℕ)
close_call none code = []
close_call (some n) code = (n, code) ∷ []

-- `socket === this.#socket`
abbrev pub is_current : ℕ → Option ℕ → Bool
is_current n none = false
is_current n (some m) = m == n

-- The delay before jitter, which is at least its half and less than the whole.
unfoldable pub backoff : ClientOptions → ℕ → ℕ
backoff options attempt =
    let delay = 500 * 2 ^ attempt in
    if leb options.max_backoff_ms delay then options.max_backoff_ms else delay

-- The code of a close frame, which has four digits, in decimal.
abbrev pub code_text : ℕ → Text
code_text code =
    (48 + code / 1000) ∷ (48 + code / 100 % 10) ∷ (48 + code / 10 % 10) ∷ (48 + code % 10) ∷ []

-- The fields of a client that was just constructed.
abbrev pub new_connection : {Json : Type 0} → SyncClient Json → Connection Json
new_connection client = record {
  client = client;
  status = idle;
  started = false;
  stopped = false;
  destroyed = false;
  hydrating = false;
  hydrated = false;
  settle_hydration = true;
  attempt = 0;
  refresh_streak = 0;
  connect_epoch = 0;
  token_calls = [];
  handles = 0;
  socket = none;
  reconnect_timer = none;
  timers = [];
  heartbeat = false;
  last_frame_at = 0;
  closed = [];
}
