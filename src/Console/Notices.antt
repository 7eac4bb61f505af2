-- ===== src/Console/Notices.antt =====
-- The browsers that notifications go to, of internal/console/content.go.
use Prim.Native.String.{String}
use text.Mathlib.Text.{◌==◌ as str_eq, starts_with}
use bealhouse.Prelude.{ℕ, not, ◌||◌, if◌then◌else◌}
use bealhouse.Prelude.Text.{is_blank, trim_space}
use bealhouse.Db.Session.{Action, pure, raise_if, ◌>>◌, bad_request}
use bealhouse.Db.Subscriptions.{
  upsert_push_subscription, delete_own_push_subscription, count_push_subscriptions,
}

-- `PushSubscription`, as a browser sends it.
pub record NewSubscription : Type 0 where
  pub endpoint : String
  pub p256dh : String
  pub auth : String
  pub label : String

abbrev pub label_of : String → String
label_of asked = let label = trim_space asked in if str_eq label "" then "This phone" else label

-- `Ops.SavePushSubscription`, for the account of the session.
unfoldable pub save_push_subscription : ℕ → NewSubscription → Action (Unit {0})
save_push_subscription user_id sub = do
  raise_if (not (starts_with sub.endpoint "https://")) bad_request
  raise_if (is_blank sub.p256dh || is_blank sub.auth) bad_request
  upsert_push_subscription (record {
    endpoint = sub.endpoint;
    user_id = user_id;
    p256dh = sub.p256dh;
    auth = sub.auth;
    label = label_of sub.label;
  })

-- `Ops.ForgetPushSubscription`
unfoldable pub forget_push_subscription : ℕ → String → Action (Unit {0})
forget_push_subscription user_id endpoint = do
  raise_if (is_blank endpoint) bad_request
  delete_own_push_subscription endpoint user_id
  pure tt

-- `Ops.PushSubscriberCount`
unfoldable pub push_subscriber_count : Action ℕ
push_subscriber_count = count_push_subscriptions
