-- ===== src/Db/Subscriptions.antt =====
-- The statements of internal/db/gen/admin.sql.go on the subscriptions to push notifications, with
-- the constraints of internal/db/migrations/00023.
use Prim.Native.String.{String}
use text.Mathlib.Text.{◌==◌ as str_eq, starts_with}
use bealhouse.Prelude.{
  ℕ, Bool, not, ◌&&◌, List, [], ◌∷◌, ◌++◌, none, some, any, keep, amend, count, length, ltb, ◌==◌,
  if◌then◌else◌,
}
use bealhouse.Prelude.Text.{count_chars}
use bealhouse.Db.Schema.{Instant, PushSubscription, Store}
use bealhouse.Db.Session.{
  Action, Outcome, ok, Error, constrained, check_violation, foreign_key_violation, statement, query,
  exec,
}
use bealhouse.Db.Accounts.{is_user}

abbrev pub put_subscriptions : List PushSubscription → Store → Store
put_subscriptions ps d = record d { accounts = record d.accounts { subscriptions = ps } }

abbrev pub is_endpoint : String → PushSubscription → Bool
is_endpoint endpoint p = str_eq p.endpoint endpoint

-- `btrim(key, ' ') <> ''`
abbrev pub is_key : String → Bool
is_key s = ltb 0 (count_chars (λ c. not (c == 32)) s)

-- ON CONFLICT (endpoint) DO UPDATE, of everything but `created_at` and `last_sent_at`.
abbrev pub renewed : PushSubscription → PushSubscription → PushSubscription
renewed new old = record new { created_at = old.created_at; last_sent_at = old.last_sent_at }

pub record UpsertPushSubscriptionParams : Type 0 where
  pub endpoint : String
  pub user_id : ℕ
  pub p256dh : String
  pub auth : String
  pub label : String

abbrev pub new_subscription : UpsertPushSubscriptionParams → Instant → PushSubscription
new_subscription arg now = record {
  endpoint = arg.endpoint;
  user_id = arg.user_id;
  p256dh = arg.p256dh;
  auth = arg.auth;
  label = arg.label;
  created_at = now;
  last_sent_at = none;
}

abbrev pub subscription_constraints : UpsertPushSubscriptionParams → Store → List (Bool × Error)
subscription_constraints arg d =
    (
      not (starts_with arg.endpoint "https://" && is_key arg.p256dh && is_key arg.auth),
      check_violation,
    )
    ∷ (not (is_user arg.user_id d), foreign_key_violation)
    ∷ []

abbrev pub upserted : UpsertPushSubscriptionParams → Store → Outcome (Unit {0}) × Store
upserted arg d = constrained (subscription_constraints arg d) d (
  ok tt,
  put_subscriptions
      (let new = new_subscription arg d.now in
        if any (is_endpoint arg.endpoint) d.accounts.subscriptions
        then amend (is_endpoint arg.endpoint) (renewed new) d.accounts.subscriptions
        else d.accounts.subscriptions ++ (new ∷ []))
      d,
)

-- `UpsertPushSubscription`
unfoldable pub upsert_push_subscription : UpsertPushSubscriptionParams → Action (Unit {0})
upsert_push_subscription arg = statement (upserted arg)

-- `ListPushSubscriptions`
unfoldable pub list_push_subscriptions : Action (List PushSubscription)
list_push_subscriptions = query (λ d. d.accounts.subscriptions)

-- `CountPushSubscriptions`
unfoldable pub count_push_subscriptions : Action ℕ
count_push_subscriptions = query (λ d. length d.accounts.subscriptions)

-- `DeletePushSubscription`
unfoldable pub delete_push_subscription : String → Action (Unit {0})
delete_push_subscription endpoint =
    exec
      (λ d. put_subscriptions (keep (λ p. not (is_endpoint endpoint p)) d.accounts.subscriptions) d)

abbrev pub is_own_endpoint : String → ℕ → PushSubscription → Bool
is_own_endpoint endpoint user_id p = is_endpoint endpoint p && (p.user_id == user_id)

-- `DeleteOwnPushSubscription`, with the number of rows deleted.
unfoldable pub delete_own_push_subscription : String → ℕ → Action ℕ
delete_own_push_subscription endpoint user_id = statement (λ d. (
  ok (count (is_own_endpoint endpoint user_id) d.accounts.subscriptions),
  put_subscriptions (keep (λ p. not (is_own_endpoint endpoint user_id p)) d.accounts.subscriptions)
      d,
))

-- `TouchPushSubscription`
unfoldable pub touch_push_subscription : String → Action (Unit {0})
touch_push_subscription endpoint = exec (λ d.
    put_subscriptions
      (amend (is_endpoint endpoint) (λ p. record p { last_sent_at = some d.now })
        d.accounts.subscriptions)
      d)
