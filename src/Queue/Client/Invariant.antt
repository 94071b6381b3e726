-- ===== src/Queue/Client/Invariant.antt =====
-- What holds of a client at all times.
use be_pawfund.Prelude.{
  ℕ, ◌+◌, ◌≡◌, ◌≤◌, refl, sym, ap, ◌∙◌, Bool, true, false, List, [], ◌∷◌, ◌++◌, map, arith,
  if◌then◌else◌, Bool-cases, inl, inr,
}
use be_pawfund.Queue.Client.{
  Connection, alive, dropped, shut, Loop, arming, watching, notifying, stopped, backing_off,
  dialing, dialed, Closing, not_called, marked, signalled, returned, Client, is_closed, is_done,
  is_alive, max_delay, next_delay, opened, armed, after_watch, swap, notify_all, subscribe,
  close_connection, Step, Reach,
}

-- The connection that the loop holds besides the current one.
abbrev pub held : Loop → ℕ
held (dialed c) = is_alive c
held _ = 0

-- The loop dials only after the current connection is gone.
abbrev pub IsReplacing : Loop → Connection → Type 0
IsReplacing (backing_off delay) conn = (1 ≤ delay) × (delay ≤ max_delay) × (is_alive conn ≡ 0)
IsReplacing (dialing delay) conn = (1 ≤ delay) × (delay ≤ max_delay) × (is_alive conn ≡ 0)
IsReplacing (dialed c) conn = is_alive conn ≡ 0
IsReplacing _ conn = Unit

abbrev pub IsUnsubscribed : Closing → List Bool → Type 0
IsUnsubscribed not_called subs = Unit
IsUnsubscribed _ subs = subs ≡ []

-- A connection is shut by the program only at the end of Close.
abbrev pub IsShutOff : Closing → Connection → Type 0
IsShutOff returned conn = is_alive conn ≡ 0
IsShutOff _ conn = Unit

pub record IsSound (c : Client) : Type 0 where
  -- No connection is forgotten: the open ones are the current one and the one just dialled.
  pub counted : c.live ≡ is_alive c.conn + held c.loop
  pub replacing : IsReplacing c.loop c.conn
  pub unsubscribed : IsUnsubscribed c.closing c.subs
  pub shut_off : IsShutOff c.closing c.conn

next_delay-bounds :
    (d : ℕ) → 1 ≤ d → d ≤ max_delay → (1 ≤ next_delay d) × (next_delay d ≤ max_delay)
next_delay-bounds d low high = (ground arith, ground arith)

armed-IsReplacing : (conn : Connection) → IsReplacing (armed conn) conn
armed-IsReplacing alive = tt
armed-IsReplacing dropped = tt
armed-IsReplacing shut = tt

armed-held : (conn : Connection) → held (armed conn) ≡ 0
armed-held alive = refl
armed-held dropped = refl
armed-held shut = refl

after_watch-IsReplacing : (conn : Connection) → IsReplacing (after_watch conn) conn
after_watch-IsReplacing alive = tt
after_watch-IsReplacing dropped = (omega arith, omega arith, refl)
after_watch-IsReplacing shut = tt

after_watch-held : (conn : Connection) → held (after_watch conn) ≡ 0
after_watch-held alive = refl
after_watch-held dropped = refl
after_watch-held shut = refl

IsReplacing-gone :
    (l : Loop) (conn gone : Connection)
    → is_alive gone ≡ 0
    → IsReplacing l conn
    → IsReplacing l gone
IsReplacing-gone arming conn gone g h = tt
IsReplacing-gone watching conn gone g h = tt
IsReplacing-gone notifying conn gone g h = tt
IsReplacing-gone stopped conn gone g h = tt
IsReplacing-gone (backing_off d) conn gone g h = (h.0, h.1, g)
IsReplacing-gone (dialing d) conn gone g h = (h.0, h.1, g)
IsReplacing-gone (dialed c) conn gone g h = g

IsShutOff-gone : (k : Closing) (gone : Connection) → is_alive gone ≡ 0 → IsShutOff k gone
IsShutOff-gone not_called gone g = tt
IsShutOff-gone marked gone g = tt
IsShutOff-gone signalled gone g = tt
IsShutOff-gone returned gone g = g

-- A step of the loop alone that opens no connection and closes none.
reloop :
    {c : Client} (l : Loop)
    → IsSound c
    → held l ≡ held c.loop
    → IsReplacing l c.conn
    → IsSound (record c { loop = l })
reloop {c = c} l s h r = record {
  counted = let n = s.counted in omega (arith, n, h);
  replacing = r;
  unsubscribed = s.unsubscribed;
  shut_off = s.shut_off;
}

failed-IsSound :
    {c : Client} (d : ℕ) (quit : Bool)
    → c.loop ≡ dialing d
    → IsSound c
    → IsSound (record c { loop = if quit then stopped else backing_off (next_delay d) })
failed-IsSound d true e s = reloop stopped s (sym (ap held e)) tt
failed-IsSound d false e s =
    let r = rw e at s.replacing in
    let b = next_delay-bounds d r.0 r.1 in
    reloop (backing_off (next_delay d)) s (sym (ap held e)) (b.0, b.1, r.2)

not_closed : (k : Closing) → is_closed k ≡ false → k ≡ not_called
not_closed not_called h = refl
not_closed marked h = ground arith
not_closed signalled h = ground arith
not_closed returned h = ground arith

resubscribed :
    {c : Client} (subs : List Bool)
    → IsSound c
    → IsUnsubscribed c.closing subs
    → IsSound (record c { subs = subs })
resubscribed subs s u = record {
  counted = s.counted;
  replacing = s.replacing;
  unsubscribed = u;
  shut_off = s.shut_off;
}

open-IsUnsubscribed : (k : Closing) (subs : List Bool) → is_closed k ≡ false → IsUnsubscribed k subs
open-IsUnsubscribed k subs h = rw (not_closed k h) tt

not_empty : (before after : List Bool) (b : Bool) → [] ≡ before ++ b ∷ after → ⊥
not_empty [] after b e = ground arith
not_empty (x ∷ before) after b e = ground arith

received-IsUnsubscribed :
    (k : Closing) (subs before after : List Bool)
    → subs ≡ before ++ true ∷ after
    → IsUnsubscribed k subs
    → IsUnsubscribed k (before ++ false ∷ after)
received-IsUnsubscribed not_called subs before after e u = tt
received-IsUnsubscribed marked subs before after e u =
    absurd (not_empty before after true (sym u ∙ e))
received-IsUnsubscribed signalled subs before after e u =
    absurd (not_empty before after true (sym u ∙ e))
received-IsUnsubscribed returned subs before after e u =
    absurd (not_empty before after true (sym u ∙ e))

swapped-IsSound :
    (c : Client) (new : Connection) → c.loop ≡ dialed new → IsSound c → IsSound (swap new c)
swapped-IsSound c new l s =
    let n = s.counted in
    let a : held c.loop ≡ is_alive new = ap held l in
    let g : is_alive c.conn ≡ 0 = rw l at s.replacing in
    elim (Bool-cases (is_closed c.closing)) [
      | inl k ↦ rw k (record {
        counted = omega (arith, n, a);
        replacing = tt;
        unsubscribed = s.unsubscribed;
        shut_off = s.shut_off;
      })
      | inr k ↦ rw k (record {
        counted = omega (arith, n, a, g);
        replacing = tt;
        unsubscribed = s.unsubscribed;
        shut_off = rw (not_closed c.closing k) tt;
      })
    ]

notified-IsSound : (c : Client) → c.loop ≡ notifying → IsSound c → IsSound (notify_all c)
notified-IsSound c l s = elim (Bool-cases (is_closed c.closing)) [
  | inl k ↦ rw k (reloop arming s (sym (ap held l)) tt)
  | inr k ↦ rw k (
      resubscribed (map (λ unread. true) c.subs) (reloop arming s (sym (ap held l)) tt)
        (open-IsUnsubscribed c.closing (map (λ unread. true) c.subs) k))
]

subscribed-IsSound : (c : Client) → IsSound c → IsSound (subscribe c)
subscribed-IsSound c s = elim (Bool-cases (is_closed c.closing)) [
  | inl k ↦ rw k s
  | inr k ↦ rw k (
      resubscribed (c.subs ++ false ∷ []) s
        (open-IsUnsubscribed c.closing (c.subs ++ false ∷ []) k))
]

closed-IsSound :
    (c : Client) (conn : Connection)
    → c.conn ≡ conn
    → c.closing ≡ signalled
    → IsSound c
    → IsSound (close_connection conn c)
closed-IsSound c alive e k s = record {
  counted = let n = s.counted in let a : is_alive c.conn ≡ 1 = ap is_alive e in omega (arith, n, a);
  replacing = IsReplacing-gone c.loop c.conn shut refl s.replacing;
  unsubscribed = rw k at s.unsubscribed;
  shut_off = refl;
}
closed-IsSound c dropped e k s = record {
  counted = s.counted;
  replacing = s.replacing;
  unsubscribed = rw k at s.unsubscribed;
  shut_off = ap is_alive e;
}
closed-IsSound c shut e k s = record {
  counted = s.counted;
  replacing = s.replacing;
  unsubscribed = rw k at s.unsubscribed;
  shut_off = ap is_alive e;
}

pub Step-IsSound : {c d : Client} → Step c d → IsSound c → IsSound d
Step-IsSound {c = c} (Step.lose e) s = record {
  counted = let n = s.counted in let a : is_alive c.conn ≡ 1 = ap is_alive e in omega (arith, n, a);
  replacing = IsReplacing-gone c.loop c.conn dropped refl s.replacing;
  unsubscribed = s.unsubscribed;
  shut_off = IsShutOff-gone c.closing dropped refl;
}
Step-IsSound {c = c} (Step.lose_dialed e) s = record {
  counted = let n = s.counted in let a : held c.loop ≡ 1 = ap held e in omega (arith, n, a);
  replacing = rw e at s.replacing;
  unsubscribed = s.unsubscribed;
  shut_off = s.shut_off;
}
Step-IsSound {c = c} (Step.arm e) s =
    reloop (armed c.conn) s (armed-held c.conn ∙ sym (ap held e)) (armed-IsReplacing c.conn)
Step-IsSound {c = c} (Step.see_close e) s =
    reloop (after_watch c.conn) s (after_watch-held c.conn ∙ sym (ap held e))
      (after_watch-IsReplacing c.conn)
Step-IsSound (Step.see_done e d) s = reloop stopped s (sym (ap held e)) tt
Step-IsSound (Step.timer d e) s = reloop (dialing d) s (sym (ap held e)) (rw e at s.replacing)
Step-IsSound (Step.give_up d e k) s = reloop stopped s (sym (ap held e)) tt
Step-IsSound {c = c} (Step.dial d e) s = record {
  counted = let n = s.counted in let a : held c.loop ≡ 0 = ap held e in omega (arith, n, a);
  replacing = let r = rw e at s.replacing in r.2;
  unsubscribed = s.unsubscribed;
  shut_off = s.shut_off;
}
Step-IsSound {c = c} (Step.dial_fails d e) s = failed-IsSound d (is_done c.closing) e s
Step-IsSound {c = c} (Step.swap_in new e) s = swapped-IsSound c new e s
Step-IsSound {c = c} (Step.notify e) s = notified-IsSound c e s
Step-IsSound {c = c} Step.subscribed s = subscribed-IsSound c s
Step-IsSound {c = c} (Step.received before after e) s =
    resubscribed (before ++ false ∷ after) s
      (received-IsUnsubscribed c.closing c.subs before after e s.unsubscribed)
Step-IsSound (Step.mark e) s = record {
  counted = s.counted;
  replacing = s.replacing;
  unsubscribed = refl;
  shut_off = tt;
}
Step-IsSound (Step.signal e) s = record {
  counted = s.counted;
  replacing = s.replacing;
  unsubscribed = rw e at s.unsubscribed;
  shut_off = tt;
}
Step-IsSound {c = c} (Step.close e) s = closed-IsSound c c.conn refl e s

opened-IsSound : IsSound opened
opened-IsSound = record { counted = refl; replacing = tt; unsubscribed = tt; shut_off = tt }

-- In every state that a client reaches from Open, whatever the network, the subscribers and Close do in
-- between: the open connections are the current one and the one that was just dialled; the loop dials
-- only when the current one is closed, with a delay from 1 to 30 seconds; a client that is closed has
-- no subscription; and when Close has returned the current connection is closed.
pub Reach-IsSound : {c : Client} → Reach opened c → IsSound c
Reach-IsSound Reach.here = opened-IsSound
Reach-IsSound (Reach.next r step) = Step-IsSound step (Reach-IsSound r)

-- When Close has returned and the loop has stopped, no connection is open.
pub Reach-nothing_left :
    {c : Client} → Reach opened c → c.closing ≡ returned → c.loop ≡ stopped → c.live ≡ 0
Reach-nothing_left {c = c} r k l =
    let s = Reach-IsSound r in
    let n = s.counted in
    let h : held c.loop ≡ 0 = ap held l in
    let g : is_alive c.conn ≡ 0 = rw k at s.shut_off in omega (arith, n, h, g)
