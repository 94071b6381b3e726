-- ===== src/Auth/Once.antt =====
-- A signed message opens at most one session.
use be_pawfund.Prelude.{◌≡◌, ◌≢◌, ap, ◌∙◌, Bool, Option, none, some, ok, arith, inl, inr}
use be_pawfund.Text.{Text}
use be_pawfund.Domain.{Instant}
use be_pawfund.Database.{Db}
use be_pawfund.Auth.Messages.{AuthEnvironment, VerifyAuthResult, verify, create_message}
use be_pawfund.Auth.Store.{
  key_of, stored_at, taken_at, taken-stored, taken-gone, taken-stays_gone, verify-left,
  verify-IsAccepted_of, create_message-other,
}

module _ (env : AuthEnvironment) where
  open env.redis use {Store}
  open env.siwe use {Message}

  -- What the server does later, at any instants: messages for other keys, verifications of any message
  -- with any signature and outcome.
  pub data Later (key : Option Text) : Store → Store → Type 0 where
    now_on : {s : Store} → Later key s s
    created :
        {s t : Store}
        → Later key s t
        → (now : Instant) (nonce wallet_address : Text) → key_of env nonce ≢ key
        → Later key s (create_message env now nonce wallet_address t).1
    verified :
        {s t : Store}
        → Later key s t
        → (now : Instant) (works : Bool) (db : Db) (raw signature : Text)
        → Later key s (verify env now works db raw signature t).1

  abbrev pub IsGone : Option Text → Store → Type 0
  IsGone key s = (t : Instant) → stored_at env s key t ≡ none

  verify-IsGone :
      (key : Option Text) (s : Store) (now : Instant) (works : Bool) (db : Db)
      (raw signature : Text)
      → IsGone key s
      → IsGone key (verify env now works db raw signature s).1
  verify-IsGone key s now works db raw signature gone t =
      elim (verify-left env now works db raw signature s) [
        | inl e ↦ ap (λ x. stored_at env x key t) e ∙ gone t
        | inr (m, read, e) ↦
            ap (λ x. stored_at env x key t) e
            ∙ taken-stays_gone env now (key_of env (env.siwe.nonce m)) key s t (gone t)
      ]

  Later-IsGone : {key : Option Text} {s u : Store} → Later key s u → IsGone key s → IsGone key u
  Later-IsGone now_on gone = gone
  Later-IsGone {key = key} (verified {t} later now works db raw signature) gone =
      verify-IsGone key t now works db raw signature (Later-IsGone later gone)
  Later-IsGone {key = key} (created {t} later now nonce wallet_address other) gone = λ at.
      create_message-other env now nonce wallet_address t key other at ∙ Later-IsGone later gone at

  gone-refused :
      (key : Option Text) (s : Store) (now : Instant) (v : Text)
      → IsGone key s
      → (taken_at env now key s).0 ≢ ok v
  gone-refused key s now v gone h =
      let kept = taken-stored env now key s v h in let none_there = gone now in ground arith

  -- After a successful Verify of a message no later Verify of the same text succeeds, with whatever
  -- signature, at whatever instant, and whatever messages for other keys are made and whatever
  -- messages are verified in between.
  pub verify-once :
      (now : Instant) (works : Bool) (db : Db) (raw signature : Text) (s : Store)
      (r : VerifyAuthResult) (m : Message) (u : Store) (now2 : Instant) (works2 : Bool) (db2 : Db)
      (signature2 : Text) (r2 : VerifyAuthResult)
      → (verify env now works db raw signature s).0 ≡ ok r
      → env.siwe.parse_message raw ≡ some m
      → Later (key_of env (env.siwe.nonce m)) (verify env now works db raw signature s).1 u
      → (verify env now2 works2 db2 raw signature2 u).0 ≢ ok r2
  verify-once now works db raw signature s r m u now2 works2 db2 signature2 r2 h read later h2 =
      let key = key_of env (env.siwe.nonce m) in
      let first = verify-IsAccepted_of env now works db raw signature s r m h read in
      let second = verify-IsAccepted_of env now2 works2 db2 raw signature2 u r2 m h2 read in
      let gone : IsGone key (verify env now works db raw signature s).1 = λ t.
        ap (λ x. stored_at env x key t) first.left ∙ taken-gone env now key s raw t first.taken in
      gone-refused key u now2 raw (Later-IsGone later gone) second.taken
