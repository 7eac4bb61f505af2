-- ===== src/Push.antt =====
-- The delivery of notifications to the owners' browsers: internal/push/push.go. The push services are
-- a parameter, which says of a browser and a notification what becomes of it.
pub mod Forgotten
use Prim.Native.String.{String}
use bealhouse.Prelude.{ℕ, Bool, true, ◌&&◌, ◌||◌, List, [], ◌∷◌, leb, ltb, ◌==◌, if◌then◌else◌}
use bealhouse.Prelude.Text.{count_chars}
use bealhouse.Db.Schema.{PushSubscription, Payload, nothing, refund_of, mail, notification}
use bealhouse.Db.Session.{Action, Outcome, ok, err, Error, pure, raise, ◌>>=◌, payload_unreadable}
use bealhouse.Db.Subscriptions.{
  list_push_subscriptions, touch_push_subscription, delete_push_subscription,
}

-- One browser's delivery address.
pub record Subscription : Type 0 where
  pub endpoint : String
  pub p256dh : String
  pub auth : String
  pub label : String

abbrev pub address : PushSubscription → Subscription
address s = record { endpoint = s.endpoint; p256dh = s.p256dh; auth = s.auth; label = s.label }

-- `nil`, `ErrGone`, and any other error.
pub data Sent : Type 0 where
  delivered gone : Sent
  failed : Error → Sent

-- `Sender`, of a browser, a title and a tag.
abbrev pub Sender : Type 0
Sender = Subscription → String → String → Sent

-- `a-z A-Z 0-9 - _`
abbrev pub is_safe : ℕ → Bool
is_safe c =
    (leb 97 c && leb c 122)
    || (leb 65 c && leb c 90)
    || (leb 48 c && leb c 57)
    || (c == 45)
    || (c == 95)

-- `topic`: the collapse key that a push service understands, or none.
unfoldable pub topic : String → String
topic tag =
    let size = count_chars (λ c. true) tag in
    if (size == 0) || ltb 32 size then "" else if count_chars is_safe tag == size then tag else ""

-- What becomes of one subscription: a delivery is stamped, which may fail, and a browser that is gone
-- is forgotten, which may not.
unfoldable pub settle : String → Sent → List Error → Action (List Error)
settle endpoint delivered failures s = (ok failures, (touch_push_subscription endpoint s).1)
settle endpoint gone failures s =
    let (r, s') = delete_push_subscription endpoint s in
    elim r [ ok _ ↦ (ok failures, s') | err e ↦ (ok (e ∷ failures), s') ]
settle endpoint (failed e) failures s = (ok (e ∷ failures), s)

-- `errors.Join`: no failure is no error.
abbrev pub joined : List Error → Action (Unit {0})
joined [] = pure tt
joined (e ∷ es) = raise e

module _ (send : Sender) (title tag : String) where
  unfoldable pub deliver_each : List PushSubscription → List Error → Action (Unit {0})
  deliver_each [] failures = joined failures
  deliver_each (s ∷ subs) failures = do
    left ← settle s.endpoint (send (address s) title tag) failures
    deliver_each subs left

  -- What follows the decoding of the notification. With no subscription there is no work.
  unfoldable pub deliver : Action (Unit {0})
  deliver = do subs ← list_push_subscriptions; deliver_each subs []

-- `Handler`
unfoldable pub handler : Sender → Payload → Action (Unit {0})
handler send (notification title tag) = deliver send title tag
handler send nothing = raise payload_unreadable
handler send (refund_of code cents) = raise payload_unreadable
handler send (mail recipient template code cents) = raise payload_unreadable
