-- ===== src/Queue/Client.antt =====
-- internal/infra/queue/client.go: the state of QueueClient and the steps of its goroutines. A step is
-- what happens between two points where another goroutine, the network or the clock can interfere.
pub mod Invariant
pub mod Lost
pub mod Recovery
use be_pawfund.Prelude.{
  ℕ, ◌+◌, ◌-◌, ◌*◌, ◌≡◌, Bool, true, false, List, [], ◌∷◌, ◌++◌, map, leb, if◌then◌else◌,
}

-- A connection: open, lost with an error, or closed by the program.
pub data Connection : Type 0 where
  alive dropped shut : Connection

-- Where reconnectLoop is: before NotifyClose, waiting for it, in the back-off with a delay in seconds,
-- in the dial, with a dialled connection, before notifyReconnect, or returned.
pub data Loop : Type 0 where
  arming watching notifying stopped : Loop
  backing_off dialing : ℕ → Loop
  dialed : Connection → Loop

-- How far Close has come: not called, after its locked part, after close(q.done), returned.
pub data Closing : Type 0 where
  not_called marked signalled returned : Closing

-- QueueClient. A subscription is whether its buffered channel holds a notification; `live` counts the
-- connections of the process that are open.
pub record Client : Type 0 where
  pub conn : Connection
  pub closing : Closing
  pub subs : List Bool
  pub loop : Loop
  pub live : ℕ

-- q.closed
abbrev pub is_closed : Closing → Bool
is_closed not_called = false
is_closed _ = true

-- q.done is closed.
abbrev pub is_done : Closing → Bool
is_done signalled = true
is_done returned = true
is_done _ = false

abbrev pub is_alive : Connection → ℕ
is_alive alive = 1
is_alive _ = 0

abbrev pub initial_delay : ℕ
initial_delay = 1

abbrev pub max_delay : ℕ
max_delay = 30

-- min(delay*factor, maxDelay)
abbrev pub next_delay : ℕ → ℕ
next_delay delay = if leb (delay * 2) max_delay then delay * 2 else max_delay

-- Open, after its dial.
abbrev pub opened : Client
opened = record { conn = alive; closing = not_called; subs = []; loop = arming; live = 1 }

-- waitForDrop registers with NotifyClose; the library closes the channel at once if the connection is
-- closed already, and then waitForDrop returns false.
abbrev pub armed : Connection → Loop
armed alive = watching
armed _ = stopped

-- What waitForDrop answers when the connection is closed: an error for a lost one, no value for one that
-- the program closed.
abbrev pub after_watch : Connection → Loop
after_watch alive = watching
after_watch dropped = backing_off initial_delay
after_watch shut = stopped

-- The locked part of reconnectLoop: a client that is closed closes the new connection.
abbrev pub swap : Connection → Client → Client
swap new c =
    if is_closed c.closing
    then record c { loop = stopped; live = c.live - is_alive new }
    else record c { conn = new; loop = notifying }

-- notifyReconnect: a notification is dropped where one is unread.
abbrev pub notify_all : Client → Client
notify_all c =
    if is_closed c.closing
    then record c { loop = arming }
    else record c { subs = map (λ unread. true) c.subs; loop = arming }

-- Notify: the channel of a closed client is closed.
abbrev pub subscribe : Client → Client
subscribe c = if is_closed c.closing then c else record c { subs = c.subs ++ false ∷ [] }

-- The last part of Close.
abbrev pub close_connection : Connection → Client → Client
close_connection alive c = record c { conn = shut; closing = returned; live = c.live - 1 }
close_connection _ c = record c { closing = returned }

pub data Step (c : Client) : Client → Type 0 where
  -- the network
  lose : c.conn ≡ alive → Step c (record c { conn = dropped; live = c.live - 1 })
  lose_dialed :
      c.loop ≡ dialed alive → Step c (record c { loop = dialed dropped; live = c.live - 1 })
  -- reconnectLoop
  arm : c.loop ≡ arming → Step c (record c { loop = armed c.conn })
  see_close : c.loop ≡ watching → Step c (record c { loop = after_watch c.conn })
  see_done : c.loop ≡ watching → is_done c.closing ≡ true → Step c (record c { loop = stopped })
  timer : (delay : ℕ) → c.loop ≡ backing_off delay → Step c (record c { loop = dialing delay })
  give_up :
      (delay : ℕ)
      → c.loop ≡ backing_off delay
      → is_done c.closing ≡ true
      → Step c (record c { loop = stopped })
  dial :
      (delay : ℕ)
      → c.loop ≡ dialing delay
      → Step c (record c { loop = dialed alive; live = c.live + 1 })
  dial_fails :
      (delay : ℕ)
      → c.loop ≡ dialing delay
      → Step c (record c {
        loop = if is_done c.closing then stopped else backing_off (next_delay delay);
      })
  swap_in : (new : Connection) → c.loop ≡ dialed new → Step c (swap new c)
  notify : c.loop ≡ notifying → Step c (notify_all c)
  -- a subscriber
  subscribed : Step c (subscribe c)
  received :
      (before after : List Bool)
      → c.subs ≡ before ++ true ∷ after
      → Step c (record c { subs = before ++ false ∷ after })
  -- Close
  mark : c.closing ≡ not_called → Step c (record c { closing = marked; subs = [] })
  signal : c.closing ≡ marked → Step c (record c { closing = signalled })
  close : c.closing ≡ signalled → Step c (close_connection c.conn c)

pub data Reach (c : Client) : Client → Type 0 where
  here : Reach c c
  next : {d e : Client} → Reach c d → Step d e → Reach c e
