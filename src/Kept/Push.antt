-- ===== src/Kept/Push.antt =====
-- The delivery of notifications keeps what the statements keep.
use Prim.Native.String.{String}
use bealhouse.Prelude.{List, [], ◌∷◌}
use bealhouse.Db.Schema.{PushSubscription, Payload, nothing, refund_of, mail, notification, Store}
use bealhouse.Db.Session.{Outcome, ok, err, Error, Session}
use bealhouse.Db.Keeps.{Keeps, Keeps-bind, Keeps-pure, Keeps-raise, Keeps-query}
use bealhouse.Db.Subscriptions.{list_push_subscriptions, delete_push_subscription}
use bealhouse.Push.{
  Sent, delivered, gone, failed, Sender, address, settle, joined, deliver_each, deliver, handler,
}
use bealhouse.Kept.Interface.{IsKept}

module _ {P : Store → Type 0} (k : IsKept P) where
  settle-Keeps :
      (endpoint : String) (r : Sent) (failures : List Error) → Keeps P (settle endpoint r failures)
  unfolding settle
  settle-Keeps endpoint delivered failures = record { at = λ s h. (k.stamps endpoint).at s h }
  settle-Keeps endpoint (failed e) failures = record { at = λ s h. h }
  settle-Keeps endpoint gone failures = record {
    at = λ s h.
        go (delete_push_subscription endpoint s).0 (delete_push_subscription endpoint s).1
          ((k.forgets endpoint).at s h);
  }
    where
      go :
          (r : Outcome (Unit {0})) (s : Session)
          → P s.db
          → P
              (elim r as (λ _. Outcome (List Error) × Session) [
                | ok _ ↦ (ok failures, s)
                | err e ↦ (ok (e ∷ failures), s)
              ]).1.db
      go (ok n) s h = h
      go (err e) s h = h

  joined-Keeps : (failures : List Error) → Keeps P (joined failures)
  joined-Keeps [] = Keeps-pure tt
  joined-Keeps (e ∷ es) = Keeps-raise e

  module _ (send : Sender) where
    deliver_each-Keeps :
        (title tag : String) (subs : List PushSubscription) (failures : List Error)
        → Keeps P (deliver_each send title tag subs failures)
    unfolding deliver_each
    deliver_each-Keeps title tag [] failures = joined-Keeps failures
    deliver_each-Keeps title tag (s ∷ subs) failures =
        Keeps-bind _ _ (settle-Keeps s.endpoint (send (address s) title tag) failures)
          (deliver_each-Keeps title tag subs)

    pub handler-Keeps : (p : Payload) → Keeps P (handler send p)
    unfolding handler deliver list_push_subscriptions
    handler-Keeps (notification title tag) =
        Keeps-bind _ _ (Keeps-query _) (λ subs. deliver_each-Keeps title tag subs [])
    handler-Keeps nothing = Keeps-raise _
    handler-Keeps (refund_of code cents) = Keeps-raise _
    handler-Keeps (mail recipient template code cents) = Keeps-raise _
