-- ===== src/Queue/Client/Recovery.antt =====
-- A connection that is lost while the loop waits for its end is replaced.
use be_pawfund.Prelude.{
  ℕ, ◌+◌, ◌≡◌, refl, ap, ◌∙◌, Bool, Bool-cases, inl, inr, true, false, map, if◌then◌else◌, arith,
}
use be_pawfund.Queue.Client.{
  alive, dropped, Loop, arming, watching, notifying, stopped, backing_off, dialing, dialed,
  not_called, Client, is_done, is_closed, next_delay, initial_delay, after_watch, swap, notify_all,
  Step, Reach,
}

-- A state of the same client, with only the loop further on.
pub record IsAt (c d : Client) (loop : Loop) : Type 0 where
  pub path : Reach c d
  pub at : d.loop ≡ loop
  pub same_closing : d.closing ≡ c.closing
  pub same_subs : d.subs ≡ c.subs

timed :
    (c d : Client) (delay : ℕ)
    → IsAt c d (backing_off delay)
    → IsAt c (record d { loop = dialing delay }) (dialing delay)
timed c d delay a = record {
  path = Reach.next a.path (Step.timer delay a.at);
  at = refl;
  same_closing = a.same_closing;
  same_subs = a.same_subs;
}

-- A state with an open connection, all subscribers notified, and the loop at its start.
pub record IsRecovered (c d : Client) : Type 0 where
  pub path : Reach c d
  pub connected : d.conn ≡ alive
  pub notified : d.subs ≡ map (λ unread. true) c.subs
  pub ready : d.loop ≡ arming
  pub still_open : d.closing ≡ not_called

connected-IsRecovered :
    (c d : Client) (delay : ℕ)
    → c.closing ≡ not_called
    → IsAt c d (dialing delay)
    → (e : Client) × IsRecovered c e
connected-IsRecovered c d delay unclosed a =
    let dialled = record d { loop = dialed alive; live = d.live + 1 } in
    let swapped = swap alive dialled in
    let k : d.closing ≡ not_called = a.same_closing ∙ unclosed in
    let at : swapped.loop ≡ notifying = rw k in
    (
      notify_all swapped,
      record {
        path =
            Reach.next
              (Reach.next (Reach.next a.path (Step.dial delay a.at)) (Step.swap_in alive refl))
              (Step.notify at);
        connected = rw k;
        notified = rw k (ap (map (λ unread. true)) a.same_subs);
        ready = rw k;
        still_open = rw k;
      },
    )

-- An open client whose loop holds no new connection.
abbrev pub has_dialed : Loop → Bool
has_dialed (dialed new) = true
has_dialed _ = false

pub record IsDown (c : Client) : Type 0 where
  pub still_open : c.closing ≡ not_called
  pub undialed : has_dialed c.loop ≡ false

-- Everything that can happen before a dial works or Close is called: steps of the loop, with any
-- number of failed dials, of the network and of the subscribers.
pub data Outage (c : Client) : Client → Type 0 where
  begins : Outage c c
  goes_on : {d e : Client} → Outage c d → Step d e → IsDown e → Outage c e

-- The loop has not given up.
abbrev pub IsRetrying : Loop → Type 0
IsRetrying watching = Unit
IsRetrying (backing_off delay) = Unit
IsRetrying (dialing delay) = Unit
IsRetrying _ = ⊥

record InOutage (c : Client) : Type 0 where
  lost : c.conn ≡ dropped
  still_open : c.closing ≡ not_called
  retrying : IsRetrying c.loop

undone : {c : Client} → InOutage c → is_done c.closing ≡ true → ⊥
undone o k = let n = ap is_done o.still_open in ground (arith, k, n)

reloop : {c : Client} (l : Loop) → InOutage c → IsRetrying l → InOutage (record c { loop = l })
reloop l o r = record { lost = o.lost; still_open = o.still_open; retrying = r }

Step-InOutage : {c d : Client} → Step c d → InOutage c → IsDown d → InOutage d
Step-InOutage (Step.lose e) o down = let l = o.lost in ground (arith, l, e)
Step-InOutage (Step.lose_dialed e) o down = absurd (rw e at o.retrying)
Step-InOutage (Step.arm e) o down = absurd (rw e at o.retrying)
Step-InOutage {c = c} (Step.see_close e) o down = reloop (after_watch c.conn) o (rw (o.lost) tt)
Step-InOutage (Step.see_done e k) o down = absurd (undone o k)
Step-InOutage (Step.timer delay e) o down = reloop (dialing delay) o tt
Step-InOutage (Step.give_up delay e k) o down = absurd (undone o k)
Step-InOutage (Step.dial delay e) o down = let u = down.undialed in ground (arith, u)
Step-InOutage {c = c} (Step.dial_fails delay e) o down =
    reloop (if is_done c.closing then stopped else backing_off (next_delay delay)) o
      (rw (o.still_open) tt)
Step-InOutage (Step.swap_in new e) o down = absurd (rw e at o.retrying)
Step-InOutage (Step.notify e) o down = absurd (rw e at o.retrying)
Step-InOutage {c = c} Step.subscribed o down = elim (Bool-cases (is_closed c.closing)) [
  | inl k ↦ rw k o
  | inr k ↦ rw k (record { lost = o.lost; still_open = o.still_open; retrying = o.retrying })
]
Step-InOutage (Step.received before after e) o down = record {
  lost = o.lost;
  still_open = o.still_open;
  retrying = o.retrying;
}
Step-InOutage (Step.mark e) o down = let k = down.still_open in ground (arith, k)
Step-InOutage (Step.signal e) o down = let k = down.still_open in ground (arith, k)
Step-InOutage {c = c} (Step.close e) o down = let k = o.still_open in ground (arith, k, e)

Outage-InOutage : {c d : Client} → InOutage c → Outage c d → InOutage d
Outage-InOutage o Outage.begins = o
Outage-InOutage o (Outage.goes_on path step down) = Step-InOutage step (Outage-InOutage o path) down

recovers :
    (c : Client) (l : Loop)
    → c.loop ≡ l
    → c.conn ≡ dropped
    → c.closing ≡ not_called
    → IsRetrying l
    → (d : Client) × IsRecovered c d
recovers c watching e lost unclosed r =
    let seen = record c { loop = after_watch c.conn } in
    let start : IsAt c seen (backing_off initial_delay) = record {
      path = Reach.next Reach.here (Step.see_close e);
      at = ap after_watch lost;
      same_closing = refl;
      same_subs = refl;
    } in
    connected-IsRecovered c (record seen { loop = dialing initial_delay }) initial_delay unclosed
      (timed c seen initial_delay start)
recovers c (backing_off delay) e lost unclosed r =
    connected-IsRecovered c (record c { loop = dialing delay }) delay unclosed
      (timed c c delay
        (record { path = Reach.here; at = e; same_closing = refl; same_subs = refl }))
recovers c (dialing delay) e lost unclosed r =
    connected-IsRecovered c c delay unclosed
      (record { path = Reach.here; at = e; same_closing = refl; same_subs = refl })
recovers c arming e lost unclosed r = absurd r
recovers c notifying e lost unclosed r = absurd r
recovers c stopped e lost unclosed r = absurd r
recovers c (dialed new) e lost unclosed r = absurd r

-- Let the connection of an open client be lost while the loop waits for its end. Whatever then happens
-- before a dial works or Close is called, and however many dials fail: the loop has not given up, and
-- from the state reached, a dial that works leads to one with an open connection, in which every
-- subscriber has a notification and the loop is at its start.
pub lost-IsRecovered :
    {c d : Client}
    → c.loop ≡ watching
    → c.conn ≡ dropped
    → c.closing ≡ not_called
    → Outage c d
    → IsRetrying d.loop × ((e : Client) × IsRecovered d e)
lost-IsRecovered {c = c} {d = d} l e unclosed path =
    let start : InOutage c = record { lost = e; still_open = unclosed; retrying = rw l tt } in
    let o = Outage-InOutage start path in
    (o.retrying, recovers d d.loop refl o.lost o.still_open o.retrying)
