-- ===== src/Client/Connection/Alive.antt =====
-- The lifecycle of a client never leaves it stuck: connecting, losing a socket, and the timers.
-- What brings the client on: the store, a socket, a token, or a timer.
use cf_sync.Base.JsMap
use cf_sync.Base.JsMap.{JsMap}
use cf_sync.Base.{
  Bool, Bool-cases, List, Option, [], arith, both_branches, eq_iff, eq_refl, false, inl, inr,
  is_some, list_eq, ltb, nat_eq, none, not, or_else, pair_eq, refl, some, subst, sym, true, ℕ, ◌++◌,
  ◌+◌, ◌==◌, ◌||◌, ◌∷◌, ◌≡◌, ◌≤◌,
}
use cf_sync.Client.Connection.Lifecycle.{
  connect, drop_socket, go_fatal, heartbeat_tick, idle_check, offline, on_disconnect, on_refresh,
  open_socket, open_with, schedule_reconnect, settle_hydrated, start, timer_fired, token_settled,
  wake,
}
use cf_sync.Client.Connection.{
  AuthToken, ClientOptions, Connection, backoff, clear_timer, connecting, fixed, is_fatal,
  is_pending, is_reconnecting, no_token, provider, reconnecting, without,
}
use cf_sync.Protocol.Chunk.{nonempty}
use cf_sync.Protocol.Messages.{close_refresh, is_permanent_close_code}

abbrev pub waits : {Json : Type 0} → Connection Json → Bool
waits x =
    x.hydrating || is_some x.socket || is_pending x.connect_epoch x.token_calls || nonempty x.timers

abbrev pub is_alive : {Json : Type 0} → Connection Json → Bool
is_alive x = not x.started || x.stopped || is_fatal x.status || waits x

-- The delays of the timers are within the cap.
abbrev pub IsPaced : ClientOptions → JsMap ℕ ℕ → Type 0
IsPaced options timers = JsMap.AllEntries (λ h delay. delay ≤ options.max_backoff_ms) timers

abbrev pub IsAlive : {Json : Type 0} → ClientOptions → Connection Json → Type 0
IsAlive options x = (is_alive x ≡ true) × IsPaced options x.timers

backoff-le :
    (options : ClientOptions) (attempt : ℕ) → backoff options attempt ≤ options.max_backoff_ms
unfolding backoff
backoff-le options attempt = ground arith

nonempty-set : (h delay : ℕ) (timers : JsMap ℕ ℕ) → nonempty (JsMap.set h delay timers) ≡ true
unfolding JsMap.set
nonempty-set h delay [] = refl
nonempty-set h delay ((j, d) ∷ timers) = ground arith

is_pending-without :
    (n m : ℕ) (calls : List ℕ)
    → (n == m) ≡ false
    → is_pending m (without n calls) ≡ is_pending m calls
is_pending-without n m [] h = refl
is_pending-without n m (k ∷ calls) h =
    grind (arith, eq_iff k n, eq_iff k m, eq_iff n m, is_pending-without n m calls h)

pub clear_timer-IsPaced :
    (options : ClientOptions) (h : Option ℕ) (timers : JsMap ℕ ℕ)
    → IsPaced options timers
    → IsPaced options (clear_timer h timers)
clear_timer-IsPaced options none timers p = p
clear_timer-IsPaced options (some h) timers p =
    JsMap.delete-AllEntries (λ k delay. delay ≤ options.max_backoff_ms) h timers p

token_settled-stale :
    {Json : Type 0} (epoch : ℕ) (x : Connection Json)
    → is_alive x ≡ true
    → (not (is_pending epoch x.token_calls) || x.stopped || not (epoch == x.connect_epoch)) ≡ true
    → is_alive (record x { token_calls = without epoch x.token_calls }) ≡ true
token_settled-stale epoch x a stale = elim (Bool-cases (epoch == x.connect_epoch)) [
  | inl current ↦
      let same : is_pending x.connect_epoch x.token_calls ≡ is_pending epoch x.token_calls =
        subst (λ e. is_pending e x.token_calls ≡ is_pending epoch x.token_calls)
          ((eq_iff epoch x.connect_epoch).0 current) refl in
      ground (arith, same)
  | inr differs ↦ ground (arith, is_pending-without epoch x.connect_epoch x.token_calls differs)
]

module _ {Json : Type 0} (options : ClientOptions) where
  abbrev pub Kept : Connection Json → Type 0
  Kept = IsAlive options

  pub schedule_reconnect-IsAlive :
      (x : Connection Json)
      → IsPaced options x.timers
      → IsAlive options (schedule_reconnect options x)
  unfolding schedule_reconnect
  schedule_reconnect-IsAlive x p =
      both_branches Kept (x.stopped || is_fatal x.status) (λ over. (ground arith, p))
        (λ goes. (
          ground (arith, nonempty-set x.handles (backoff options x.attempt) x.timers),
          JsMap.set-AllEntries (λ k delay. delay ≤ options.max_backoff_ms) x.handles
              (backoff options x.attempt) x.timers (backoff-le options x.attempt) p,
        ))

  pub open_socket-IsAlive :
      (created : Bool) (x : Connection Json)
      → IsPaced options x.timers
      → IsAlive options (open_socket options created x)
  unfolding open_socket
  open_socket-IsAlive true x p = (ground arith, p)
  open_socket-IsAlive false x p =
      schedule_reconnect-IsAlive (record x { socket = none; client = offline x.client }) p

  open_with-IsAlive :
      (created : Bool) (token : AuthToken) (x : Connection Json)
      → IsPaced options x.timers
      → IsAlive options (open_with options created token x)
  unfolding open_with
  open_with-IsAlive created no_token x p = open_socket-IsAlive created x p
  open_with-IsAlive created fixed x p = open_socket-IsAlive created x p
  open_with-IsAlive created provider x p = (ground (arith, eq_refl x.connect_epoch), p)

  pub connect-IsAlive :
      (created : Bool) (x : Connection Json)
      → IsPaced options x.timers
      → IsAlive options (connect options created x)
  unfolding connect
  connect-IsAlive created x p =
      both_branches Kept x.stopped (λ over. (ground arith, p))
        (λ goes.
          open_with-IsAlive created options.auth_token
            (record x { connect_epoch = x.connect_epoch + 1 }) p)

  pub token_settled-IsAlive :
      (created resolved : Bool) (epoch : ℕ) (x : Connection Json)
      → IsAlive options x
      → IsAlive options (token_settled options created epoch resolved x)
  unfolding token_settled
  token_settled-IsAlive created resolved epoch x (a, p) =
      let next = record x { token_calls = without epoch x.token_calls } in
      both_branches Kept
        (not (is_pending epoch x.token_calls) || x.stopped || not (epoch == x.connect_epoch))
        (λ stale. (token_settled-stale epoch x a stale, p))
        (λ current.
          both_branches Kept resolved (λ yes. open_socket-IsAlive created next p)
            (λ no.
              schedule_reconnect-IsAlive (record next { socket = none; client = offline x.client })
                p))

  pub wake-IsAlive :
      (created reachable : Bool) (x : Connection Json)
      → IsAlive options x
      → IsAlive options (wake options created reachable x)
  unfolding wake
  wake-IsAlive created reachable x (a, p) =
      both_branches Kept (x.stopped || not (is_reconnecting x.status) || not reachable)
        (λ off. (a, p))
        (λ on.
          connect-IsAlive created
            (record x { timers = clear_timer x.reconnect_timer x.timers; reconnect_timer = none })
            (clear_timer-IsPaced options x.reconnect_timer x.timers p))

  pub timer_fired-IsAlive :
      (created : Bool) (h : ℕ) (x : Connection Json)
      → IsAlive options x
      → IsAlive options (timer_fired options created h x)
  unfolding timer_fired
  timer_fired-IsAlive created h x (a, p) =
      both_branches Kept (JsMap.has h x.timers)
        (λ there.
          connect-IsAlive created (record x { timers = JsMap.delete h x.timers })
            (clear_timer-IsPaced options (some h) x.timers p))
        (λ gone. (a, p))

  pub timers-settle_hydrated :
      (restored : Bool) (x : Connection Json) → (settle_hydrated restored x).timers ≡ x.timers
  unfolding settle_hydrated
  timers-settle_hydrated restored x = ground arith

  pub start-IsAlive :
      (created : Bool) (x : Connection Json)
      → IsAlive options x
      → IsAlive options (or_else (start options created x) x)
  unfolding start
  start-IsAlive created x (a, p) =
      let again = λ (o : Option (Connection Json)). IsAlive options (or_else o x) in
      let first : Connection Json = record x { started = true; status = connecting } in
      both_branches again x.destroyed (λ over. (a, p))
        (λ live.
          both_branches again x.started (λ on. (a, p))
            (λ off.
              both_branches again options.durable (λ durable. (ground arith, p))
                (λ memory.
                  connect-IsAlive created (settle_hydrated false first)
                    (subst (IsPaced options) (sym (timers-settle_hydrated false first)) p))))

  pub on_refresh-IsAlive :
      (created : Bool) (x : Connection Json)
      → IsPaced options x.timers
      → IsAlive options (on_refresh options created x)
  unfolding on_refresh
  on_refresh-IsAlive created x p =
      let next = record x { refresh_streak = x.refresh_streak + 1 } in
      both_branches Kept (x.refresh_streak == 0)
        (λ once. connect-IsAlive created (record next { status = reconnecting }) p)
        (λ again. schedule_reconnect-IsAlive next p)

  pub on_disconnect-IsAlive :
      (created : Bool) (code : Option ℕ) (x : Connection Json)
      → IsPaced options x.timers
      → IsAlive options (on_disconnect options created code x)
  unfolding on_disconnect go_fatal
  on_disconnect-IsAlive created none x p = schedule_reconnect-IsAlive (drop_socket x) p
  on_disconnect-IsAlive created (some code) x p =
      both_branches Kept (is_permanent_close_code code) (λ permanent. (ground arith, p))
        (λ passing.
          both_branches Kept (code == close_refresh)
            (λ refresh. on_refresh-IsAlive created (drop_socket x) p)
            (λ other. schedule_reconnect-IsAlive (drop_socket x) p))

  idle_check-IsAlive :
      (now : ℕ) (socket : Option ℕ) (x : Connection Json)
      → IsAlive options x
      → IsAlive options (idle_check options now socket x)
  idle_check-IsAlive now none x (a, p) = (a, p)
  idle_check-IsAlive now (some n) x (a, p) =
      both_branches Kept (ltb (x.last_frame_at + options.idle_timeout_ms) now)
        (λ idle.
          schedule_reconnect-IsAlive
            (record (drop_socket x) { closed = x.closed ++ (n, 4408) ∷ [] }) p)
        (λ live. (a, p))

  pub heartbeat_tick-IsAlive :
      (now : ℕ) (x : Connection Json)
      → IsAlive options x
      → IsAlive options (heartbeat_tick options now x)
  unfolding heartbeat_tick
  heartbeat_tick-IsAlive now x (a, p) =
      both_branches Kept x.heartbeat (λ on. idle_check-IsAlive now x.socket x (a, p))
        (λ off. (a, p))
