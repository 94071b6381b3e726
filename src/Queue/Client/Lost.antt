-- ===== src/Queue/Client/Lost.antt =====
-- A connection that is lost before the loop has asked for its end.
use be_pawfund.Prelude.{◌≡◌, ◌≢◌, refl, ap, arith, Bool-cases, inl, inr}
use be_pawfund.Queue.Client.{
  Connection, alive, dropped, shut, Loop, arming, watching, notifying, stopped, backing_off,
  dialing, dialed, Client, is_closed, is_alive, armed, subscribe, close_connection, Step, Reach,
}

-- The loop has returned, or is about to, and the current connection is not open.
abbrev pub IsBeyond : Loop → Type 0
IsBeyond arming = Unit
IsBeyond stopped = Unit
IsBeyond _ = ⊥

pub record IsLost (c : Client) : Type 0 where
  pub gone : is_alive c.conn ≡ 0
  pub beyond : IsBeyond c.loop

armed-IsBeyond : (conn : Connection) → is_alive conn ≡ 0 → IsBeyond (armed conn)
armed-IsBeyond alive h = ground arith
armed-IsBeyond dropped h = tt
armed-IsBeyond shut h = tt

close_connection-IsLost :
    (c : Client) (conn : Connection) → IsLost c → IsLost (close_connection conn c)
close_connection-IsLost c alive l = record { gone = refl; beyond = l.beyond }
close_connection-IsLost c dropped l = record { gone = l.gone; beyond = l.beyond }
close_connection-IsLost c shut l = record { gone = l.gone; beyond = l.beyond }

subscribe-IsLost : (c : Client) → IsLost c → IsLost (subscribe c)
subscribe-IsLost c l = elim (Bool-cases (is_closed c.closing)) [
  | inl k ↦ rw k l
  | inr k ↦ rw k (record { gone = l.gone; beyond = l.beyond })
]

elsewhere : {c : Client} {A : Type 0} (l : Loop) → c.loop ≡ l → IsLost c → (IsBeyond l → ⊥) → A
elsewhere l e lost not_beyond = absurd (not_beyond (rw e at lost.beyond))

Step-IsLost : {c d : Client} → Step c d → IsLost c → IsLost d
Step-IsLost {c = c} (Step.lose e) l = record { gone = refl; beyond = l.beyond }
Step-IsLost (Step.lose_dialed e) l = elsewhere (dialed alive) e l (λ b. b)
Step-IsLost {c = c} (Step.arm e) l = record { gone = l.gone; beyond = armed-IsBeyond c.conn l.gone }
Step-IsLost (Step.see_close e) l = elsewhere watching e l (λ b. b)
Step-IsLost (Step.see_done e d) l = elsewhere watching e l (λ b. b)
Step-IsLost (Step.timer d e) l = elsewhere (backing_off d) e l (λ b. b)
Step-IsLost (Step.give_up d e k) l = elsewhere (backing_off d) e l (λ b. b)
Step-IsLost (Step.dial d e) l = elsewhere (dialing d) e l (λ b. b)
Step-IsLost (Step.dial_fails d e) l = elsewhere (dialing d) e l (λ b. b)
Step-IsLost (Step.swap_in new e) l = elsewhere (dialed new) e l (λ b. b)
Step-IsLost (Step.notify e) l = elsewhere notifying e l (λ b. b)
Step-IsLost {c = c} Step.subscribed l = subscribe-IsLost c l
Step-IsLost (Step.received before after e) l = record { gone = l.gone; beyond = l.beyond }
Step-IsLost (Step.mark e) l = record { gone = l.gone; beyond = l.beyond }
Step-IsLost (Step.signal e) l = record { gone = l.gone; beyond = l.beyond }
Step-IsLost {c = c} (Step.close e) l = close_connection-IsLost c c.conn l

Reach-IsLost : {c d : Client} → Reach c d → IsLost c → IsLost d
Reach-IsLost Reach.here l = l
Reach-IsLost (Reach.next r step) l = Step-IsLost step (Reach-IsLost r l)

-- If the current connection is lost while the loop has not yet asked to be notified of its end, the client
-- never has an open connection again, whatever happens and whether or not it is closed.
pub lost_before_watch :
    {c d : Client} → c.loop ≡ arming → c.conn ≡ dropped → Reach c d → d.conn ≢ alive
lost_before_watch l e r a =
    let lost = Reach-IsLost r (record { gone = ap is_alive e; beyond = rw l tt }) in
    let g = lost.gone in let one = ap is_alive a in ground arith
