-- ===== src/Socket.antt =====
-- js/src/PersistentWebSocket.ts: a web socket that connects again. The browser's sockets and timers
-- are the environment: the state says which sockets it is dialing, which are established, and how
-- many timers will call `connect`, and which sockets have a connect timeout; `Step` says what may happen next. Each handler is one function.
pub mod Connections
pub mod Closing
pub mod Handlers
pub mod Invariant
pub mod Retries
pub mod Listeners
mod Tests
use interop.Base.{
  ℕ, suc, ◌+◌, ◌-◌, ◌≡◌, Bool, true, false, not, ◌&&◌, ◌||◌, List, [], ◌∷◌, ◌++◌, ◌==◌,
  if◌then◌else◌, Option, none, some, ℤ, pos, negsuc,
}
use interop.Promise.{Outcome, fulfilled, rejected, outcome_of, settle}

pub data ReadyState : Type 0 where
  connecting open_state closed : ReadyState

pub data SocketError : Type 0 where
  connection_closed max_retries_exceeded : SocketError

-- The numbers of `Options`; times are in milliseconds, and no `maxRetries` is `none`.
pub record Options : Type 0 where
  pub connect_timeout : ℕ
  pub retry_interval : ℕ
  pub max_retries : Option ℤ

-- What the code does to the world, in order.
pub data Effect : Type 0 where
  dials : ℕ → Effect
  dispatches_open dispatches_close : ℕ → Effect
  closes_socket : ℕ → Effect
  sets_timer : ℕ → Effect
  sets_timeout : ℕ → ℕ → Effect

-- What the listeners that are called do with the socket before they return.
pub data Reaction : Type 0 where
  stay_silent call_close : Reaction

-- `closing` are the promises with a callback that will close their sockets.
pub record State : Type 0 where
  pub ready_state : ReadyState
  pub attempts : ℕ
  pub promise : ℕ
  pub outcomes : List (ℕ × Outcome ℕ SocketError)
  pub closing : List ℕ
  pub sockets : ℕ
  pub dialing : List ℕ
  pub established : List ℕ
  pub timeouts : List ℕ
  pub timers : ℕ
  pub effects : List Effect

abbrev pub is_open : ReadyState → Bool
is_open open_state = true
is_open _ = false

abbrev pub is_closed : ReadyState → Bool
is_closed closed = true
is_closed _ = false

abbrev pub emit : Effect → State → State
emit e s = record s { effects = s.effects ++ e ∷ [] }

unfoldable pub remove : ℕ → List ℕ → List ℕ
remove ws [] = []
remove ws (v ∷ vs) = if v == ws then vs else v ∷ remove ws vs

-- `new WebSocket(url)` and the timeout that closes it if it does not open.
unfoldable pub connect : Options → State → State
connect o s =
    let ws = s.sockets in
    emit (sets_timeout ws o.connect_timeout) (
      emit (dials ws) (record s {
        sockets = suc ws;
        dialing = s.dialing ++ ws ∷ [];
        timeouts = s.timeouts ++ ws ∷ [];
      }))

-- `() => ws.close(1000, 'Connection timeout')`
unfoldable pub on_timeout : ℕ → State → State
on_timeout ws s = emit (closes_socket ws) (record s { timeouts = remove ws s.timeouts })

abbrev pub settle_promise : Outcome ℕ SocketError → State → State
settle_promise o s = record s { outcomes = settle s.promise o s.outcomes }

-- `promise.then(ws => ws.close(code, reason))`
unfoldable pub close_promised : Option (Outcome ℕ SocketError) → State → State
close_promised none s = record s { closing = s.closing ++ s.promise ∷ [] }
close_promised (some (fulfilled ws)) s = emit (closes_socket ws) s
close_promised (some (rejected _)) s = s

unfoldable pub close : State → State
unfolding close_promised
close s =
    let s' =
      if is_open s.ready_state then close_promised (outcome_of s.promise s.outcomes) s else s in
    record s' { ready_state = closed }

-- The listeners of an event are called.
abbrev pub react : Reaction → State → State
react stay_silent s = s
react call_close s = close s

-- The callbacks of a promise that has been resolved with a socket.
unfoldable pub closes_of : ℕ → ℕ → List ℕ → List Effect
closes_of ws p [] = []
closes_of ws p (q ∷ qs) = if q == p then closes_socket ws ∷ closes_of ws p qs else closes_of ws p qs

abbrev pub call_back : ℕ → ℕ → State → State
call_back ws p s = record s { effects = s.effects ++ closes_of ws p s.closing }

abbrev pub opened : ℕ → State → State
opened ws s = emit (dispatches_open ws) (
    settle_promise (fulfilled ws) (record s {
      attempts = 0;
      ready_state = open_state;
      dialing = remove ws s.dialing;
      established = s.established ++ ws ∷ [];
      timeouts = remove ws s.timeouts;
    }))

unfoldable pub on_open : Reaction → ℕ → State → State
on_open r ws s = call_back ws s.promise (react r (opened ws s))

-- `attempts === maxRetries`
abbrev pub reached : ℕ → Option ℤ → Bool
reached attempts none = false
reached attempts (some (pos n)) = attempts == n
reached attempts (some (negsuc n)) = false

abbrev pub set_connect_timer : ℕ → State → State
set_connect_timer delay s = emit (sets_timer delay) (record s { timers = suc s.timers })

-- `onclose` by what `readyState` is: `open` and `closed` of the code cannot both hold.
unfoldable pub on_close : Options → Reaction → ℕ → State → State
on_close o r ws s =
    let gone = record s {
      dialing = remove ws s.dialing;
      established = remove ws s.established;
      timeouts = remove ws s.timeouts;
    } in
    elim s.ready_state [
      | open_state ↦
          record (set_connect_timer 0
            (react r (emit (dispatches_close ws) (record gone { promise = suc s.promise })))) {
              ready_state = connecting;
            }
      | closed ↦
          settle_promise (rejected connection_closed) (react r (emit (dispatches_close ws) gone))
      | connecting ↦
          (let counted = record gone { attempts = suc s.attempts } in
            if reached s.attempts o.max_retries
            then settle_promise (rejected max_retries_exceeded) (close counted)
            else record (set_connect_timer o.retry_interval counted) { ready_state = connecting })
    ]

-- The timer that calls `connect`.
unfoldable pub on_timer : Options → State → State
unfolding connect
on_timer o s = connect o (record s { timers = s.timers - 1 })

-- `send` throws once the socket is closed; before that it waits for the promise and sends on its
-- socket.
pub data Sending : Type 0 where
  throws : SocketError → Sending
  awaits : ℕ → Sending

unfoldable pub send : State → Sending
send s = if is_closed s.ready_state then throws connection_closed else awaits s.promise

unfoldable pub create_persistent_web_socket : Options → State
unfolding connect
create_persistent_web_socket o = connect o (record {
  ready_state = connecting;
  attempts = 0;
  promise = 0;
  outcomes = [];
  closing = [];
  sockets = 0;
  dialing = [];
  established = [];
  timeouts = [];
  timers = 0;
  effects = [];
})

-- A socket opens only while it is dialing, and closes once; a timer fires once, and a timeout once
-- unless it is cleared; a user may close at any time.
pub data Step (o : Options) (s : State) : State → Type 0 where
  opens :
      (r : Reaction) (ws : ℕ) (before after : List ℕ)
      → s.dialing ≡ before ++ ws ∷ after
      → Step o s (on_open r ws s)
  drops :
      (r : Reaction) (ws : ℕ) (before after : List ℕ)
      → s.dialing ≡ before ++ ws ∷ after
      → Step o s (on_close o r ws s)
  loses :
      (r : Reaction) (ws : ℕ) (before after : List ℕ)
      → s.established ≡ before ++ ws ∷ after
      → Step o s (on_close o r ws s)
  fires : (n : ℕ) → s.timers ≡ suc n → Step o s (on_timer o s)
  times_out :
      (ws : ℕ) (before after : List ℕ)
      → s.timeouts ≡ before ++ ws ∷ after
      → Step o s (on_timeout ws s)
  user_closes : Step o s (close s)

pub data Reach (o : Options) : State → Type 0 where
  start : Reach o (create_persistent_web_socket o)
  next : {s t : State} → Reach o s → Step o s t → Reach o t
