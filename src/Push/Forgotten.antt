-- ===== src/Push/Forgotten.antt =====
-- A browser that is gone is forgotten: `Handler` of internal/push/push.go.
use Prim.Native.String.{String}
use text.Mathlib.TextEquality.{eq_iff}
use bealhouse.Prelude.{◌≡◌, ◌≢◌, refl, ap, Bool, true, false, ◌&&◌, List, [], ◌∷◌, All, any, arith}
use bealhouse.Prelude.Rows.{All-imply, All-rest, All-amend}
use bealhouse.Db.Schema.{PushSubscription, notification, Store}
use bealhouse.Db.Session.{Outcome, ok, err, Error, Session, exec, pure, query}
use bealhouse.Db.Keeps.{Ensures, Keeps, Keeps-exec, Returns}
use bealhouse.Db.Ensures.{Ensures-bind, Ensures-statement, Ensures-raise, ensured}
use bealhouse.Db.Subscriptions.{
  list_push_subscriptions, touch_push_subscription, delete_push_subscription, is_endpoint,
}
use bealhouse.Push.{
  address, Sent, delivered, gone, failed, Sender, settle, deliver_each, deliver, handler,
}

abbrev is_gone : Sent → Bool
is_gone gone = true
is_gone delivered = false
is_gone (failed e) = false

module _ (send : Sender) (title tag : String) where
  abbrev is_dead : PushSubscription → Bool
  is_dead p = is_gone (send (address p) title tag)

  -- A browser that is gone is among those that are still to be tried.
  abbrev IsAwaited : List PushSubscription → PushSubscription → Type 0
  IsAwaited rest p = is_dead p ≡ true → any (λ s. is_dead s && is_endpoint s.endpoint p) rest ≡ true

  abbrev Awaited : List PushSubscription → Store → Type 0
  Awaited rest d = All (IsAwaited rest) d.accounts.subscriptions

  -- `left` are the failures so far.
  abbrev Unless : List Error → List PushSubscription → Store → Type 0
  Unless left rest d = left ≡ [] → Awaited rest d

  themselves : (ps : List PushSubscription) → All (IsAwaited ps) ps
  themselves [] = tt
  themselves (p ∷ ps) = (
    (λ h. rw (h, (eq_iff p.endpoint p.endpoint).1 refl) refl),
    All-imply (IsAwaited ps) (IsAwaited (p ∷ ps)) ps (λ q k h. ground (arith, k h)) (themselves ps),
  )

  -- One that is not gone need not be tried for the sake of those that are.
  passed :
      (s : PushSubscription) (rest ps : List PushSubscription)
      → is_dead s ≡ false
      → All (IsAwaited (s ∷ rest)) ps
      → All (IsAwaited rest) ps
  passed s rest ps e =
      All-imply (IsAwaited (s ∷ rest)) (IsAwaited rest) ps (λ p k h. ground (arith, k h))

  stamped :
      (rest : List PushSubscription) (endpoint : String)
      → Keeps (Awaited rest) (touch_push_subscription endpoint)
  unfolding touch_push_subscription
  stamped rest endpoint = Keeps-exec _ (λ d h.
      All-amend (IsAwaited rest) (IsAwaited rest) (is_endpoint endpoint) _ d.accounts.subscriptions
        (λ p k e. k) (λ p k e. k) h)

  erased :
      (s : PushSubscription) (rest : List PushSubscription)
      → Ensures (Awaited (s ∷ rest)) (delete_push_subscription s.endpoint) (λ n. Awaited rest)
  unfolding delete_push_subscription exec
  erased s rest = Ensures-statement _ _ (λ d h.
      All-rest (IsAwaited (s ∷ rest)) (IsAwaited rest) (is_endpoint s.endpoint)
        d.accounts.subscriptions (λ p k e f. ground (arith, k f)) h)

  settled :
      (s : PushSubscription) (rest : List PushSubscription) (failures : List Error) (r : Sent)
      → send (address s) title tag ≡ r
      → Ensures
          (Unless failures (s ∷ rest))
          (settle s.endpoint r failures)
          (λ left. Unless left rest)
  unfolding settle
  settled s rest failures delivered e = record {
    at = λ t h. λ k.
        (stamped rest s.endpoint).at t
          (passed s rest t.db.accounts.subscriptions (ap is_gone e) (h k));
  }
  settled s rest failures (failed x) e = record { at = λ t h k. absurd (ground arith) }
  settled s rest failures gone e = record {
    at = λ t h.
        go (delete_push_subscription s.endpoint t).0 (delete_push_subscription s.endpoint t).1
          (λ k. (erased s rest).at t (h k));
  }
    where
      ended : Outcome (Unit {0}) → Session → Outcome (List Error) × Session
      ended r u = elim r as (λ _. Outcome (List Error) × Session) [
        | ok _ ↦ (ok failures, u)
        | err x ↦ (ok (x ∷ failures), u)
      ]

      go :
          (r : Outcome (Unit {0})) (u : Session)
          → (failures ≡ [] → Returns (λ n. Awaited rest) r u.db)
          → Returns (λ left. Unless left rest) (ended r u).0 (ended r u).1.db
      go (ok n) u k = k
      go (err x) u k = λ z. absurd (ground arith)

  delivered_all :
      (rest : List PushSubscription) (failures : List Error)
      → Ensures
          (Unless failures rest)
          (deliver_each send title tag rest failures)
          (λ done. Awaited [])
  unfolding deliver_each pure
  delivered_all [] [] = record { at = λ t h. h refl }
  delivered_all [] (e ∷ es) = Ensures-raise _ _
  delivered_all (s ∷ rest) failures =
      Ensures-bind _ _ (λ left. Unless left rest) _
        (settled s rest failures (send (address s) title tag) refl) (delivered_all rest)

  -- When a notification has been delivered with no failure to report, no browser is left that the push
  -- services call gone: each of them has been forgotten.
  pub gone_is_forgotten :
      (s : Session)
      → (handler send (notification title tag) s).0 ≡ ok tt
      → All
          (λ p. send (address p) title tag ≢ gone)
          (handler send (notification title tag) s).1.db.accounts.subscriptions
  unfolding handler deliver list_push_subscriptions query
  gone_is_forgotten s h =
      All-imply (IsAwaited []) (λ p. send (address p) title tag ≢ gone)
        (handler send (notification title tag) s).1.db.accounts.subscriptions
        (λ p k e. absurd (ground (arith, k (ap is_gone e)))) (ensured listed s tt tt h)
    where
      listed : Ensures (λ d. Unit {0}) (handler send (notification title tag)) (λ done. Awaited [])
      listed =
          Ensures-bind _ _ (λ subs. Unless [] subs) _
            (Ensures-statement _ _ (λ d h z. themselves d.accounts.subscriptions))
            (λ subs. delivered_all subs [])
