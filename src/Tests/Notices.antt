-- ===== src/Tests/Notices.antt =====
-- A notification to two browsers, one of which is gone.
use Prim.Native.String.{String}
use text.Mathlib.Text.{◌==◌ as str_eq}
use bealhouse.Prelude.{◌≡◌, ◌≢◌, refl, All, [], ◌∷◌, none, map, if◌then◌else◌}
use bealhouse.Db.Schema.{Store, PushSubscription, notification}
use bealhouse.Db.Session.{ok, pure, statement, query, exec, ◌>>=◌}
use bealhouse.Db.Subscriptions.{
  list_push_subscriptions, touch_push_subscription, delete_push_subscription,
}
use bealhouse.Push.{Sender, address, delivered, gone, settle, deliver_each, deliver, handler, topic}
use bealhouse.Push.Forgotten.{gone_is_forgotten}
use bealhouse.Prelude.Text.{count_chars}
use bealhouse.Tests.Inn.{empty_inn, calm}

abbrev browser : String → PushSubscription
browser endpoint = record {
  endpoint = endpoint;
  user_id = 1;
  p256dh = "p";
  auth = "a";
  label = "phone";
  created_at = 800;
  last_sent_at = none;
}

abbrev two_browsers : Store
two_browsers = record empty_inn {
  accounts = record empty_inn.accounts {
    subscriptions = browser "https://old" ∷ browser "https://new" ∷ [];
  };
}

abbrev services : Sender
services a title tag = if str_eq a.endpoint "https://old" then gone else delivered

told : (handler services (notification "A booking" "BH-AAAAAA") (calm two_browsers)).0 ≡ ok tt
unfolding handler deliver deliver_each settle list_push_subscriptions touch_push_subscription
    delete_push_subscription statement query exec pure ◌>>=◌
told = refl

-- One of the two is left.
one_left :
    map
      (λ p. p.endpoint)
      (handler services
        (notification "A booking" "BH-AAAAAA")
        (calm two_browsers)).1.db.accounts.subscriptions
    ≡ "https://new" ∷ []
unfolding handler deliver deliver_each settle list_push_subscriptions touch_push_subscription
    delete_push_subscription statement query exec pure ◌>>=◌
one_left = refl

-- A tag with a space is no topic.
topics : (topic "BH-AAAAAA" ≡ "BH-AAAAAA") × (topic "two words" ≡ "")
unfolding topic count_chars
topics = (refl, refl)

gone_is_forgotten_example :
    All
      (λ p. services (address p) "A booking" "BH-AAAAAA" ≢ gone)
      (handler services
        (notification "A booking" "BH-AAAAAA")
        (calm two_browsers)).1.db.accounts.subscriptions
gone_is_forgotten_example =
    gone_is_forgotten services "A booking" "BH-AAAAAA" (calm two_browsers) told
