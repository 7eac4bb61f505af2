-- ===== src/Db/Schema.antt =====
-- The tables of internal/db/migrations (internal/db/gen/models.go), with the columns that the
-- modelled statements read or write. `created_at` and `updated_at` are left out: rows stand in the
-- order of their creation, and nothing modelled reads `updated_at`.
use Prim.Native.String.{String}
use bealhouse.Prelude.{ℕ, List, Option}
use bealhouse.Prelude.Int.{ℤ}
use bealhouse.Civil.{Date}

-- A timestamptz, in seconds.
abbrev pub Instant : Type 0
Instant = ℕ

pub data Status : Type 0 where
  pending confirmed cancelled expired : Status

-- The kinds of money movement; `other` is any text that is none of the four.
pub data Kind : Type 0 where
  deposit full balance refund : Kind
  other : String → Kind

pub data Settled : Type 0 where
  succeeded failed : Settled

pub data Claim : Type 0 where
  booking hold block : Claim

pub record Guest : Type 0 where
  pub id : ℕ
  pub email : String
  pub name : String
  pub phone : String

pub record Booking : Type 0 where
  pub id : ℕ
  pub code : String
  pub guest_id : ℕ
  pub status : Status
  pub checkin : Date
  pub checkout : Date
  pub guests : ℤ
  pub room_subtotal_cents : ℤ
  pub tax_cents : ℤ
  pub tax_rate_scaled : ℤ
  pub total_cents : ℤ
  pub deposit_cents : ℤ
  pub balance_due_cents : ℤ
  pub amount_paid_cents : ℤ
  pub balance_charge_at : Option Date
  pub stripe_customer_id : String
  pub stripe_payment_method_id : String
  pub payment_intent_id : String
  pub payment_started_at : Option Instant
  pub balance_charge_failed_at : Option Instant
  pub balance_warned_at : Option Instant
  pub checkout_email_sent_at : Option Instant
  pub policies_accepted_at : Option Instant

pub record BookingRoom : Type 0 where
  pub booking_id : ℕ
  pub room_id : ℕ
  pub checkin : Date
  pub checkout : Date
  pub nightly_prices : List ℤ

-- `during` is the half-open range of its two dates.
pub record Occupancy : Type 0 where
  pub id : ℕ
  pub room_id : ℕ
  pub checkin : Date
  pub checkout : Date
  pub kind : Claim
  pub source : String
  pub booking_id : Option ℕ
  pub expires_at : Option Instant

pub record Payment : Type 0 where
  pub id : ℕ
  pub booking_id : ℕ
  pub stripe_id : String
  pub kind : Kind
  pub amount_cents : ℤ
  pub status : Settled

-- The JSON that a job carries, by what encodes it: nothing, a refund, a mail by its template with
-- the booking and the amount that it names, or a notification.
pub data Payload : Type 0 where
  nothing : Payload
  refund_of : String → ℤ → Payload
  mail : (recipient template code : String) → ℤ → Payload
  notification : (title tag : String) → Payload

pub record Job : Type 0 where
  pub id : ℕ
  pub kind : String
  pub run_at : Instant
  pub payload : Payload
  pub attempts : ℕ
  pub last_error : String
  pub unique_key : Option String

pub record Room : Type 0 where
  pub id : ℕ
  pub slug : String
  pub name : String
  pub max_occupancy : ℤ
  pub sort_order : ℤ

-- A row of `rate_calendar`: the price of a room on a night.
pub record NightRate : Type 0 where
  pub room_id : ℕ
  pub date : Date
  pub price_cents : ℤ
  pub min_stay : ℤ

pub record Settings : Type 0 where
  pub max_stay_nights : ℤ
  pub tax_rate_scaled : ℤ
  pub refund_processing_rate_scaled : ℤ
  pub hold_ttl_minutes : ℕ
  pub payment_grace_minutes : ℕ

-- The owners' accounts. A bytea is a text whose characters are its bytes, and a jsonb is what it
-- was encoded to.
pub record User : Type 0 where
  pub id : ℕ
  pub handle : String
  pub name : String
  pub created_at : Instant

pub record UserPasskey : Type 0 where
  pub id : String
  pub user_id : ℕ
  pub label : String
  pub credential : String
  pub created_at : Instant
  pub last_used_at : Option Instant

pub record UserSession : Type 0 where
  pub token_hash : String
  pub user_id : ℕ
  pub passkey_id : Option String
  pub created_at : Instant
  pub last_seen_at : Instant
  pub expires_at : Instant
  pub revoked_at : Option Instant
  pub user_agent : String

pub record UserEnrollment : Type 0 where
  pub token_hash : String
  pub label : String
  pub user_id : Option ℕ
  pub created_at : Instant
  pub expires_at : Instant
  pub used_at : Option Instant

pub record WebauthnCeremony : Type 0 where
  pub id : String
  pub purpose : String
  pub session : String
  pub enrollment : Option String
  pub created_at : Instant
  pub expires_at : Instant

pub record PushSubscription : Type 0 where
  pub endpoint : String
  pub user_id : ℕ
  pub p256dh : String
  pub auth : String
  pub label : String
  pub created_at : Instant
  pub last_sent_at : Option Instant

pub record Accounts : Type 0 where
  pub users : List User
  pub passkeys : List UserPasskey
  pub sessions : List UserSession
  pub enrollments : List UserEnrollment
  pub ceremonies : List WebauthnCeremony
  pub subscriptions : List PushSubscription

-- `next_id` stands for the sequences, and `now` for the database's clock.
pub record Store : Type 0 where
  pub next_id : ℕ
  pub now : Instant
  pub settings : Settings
  pub rooms : List Room
  pub rate_calendar : List NightRate
  pub guests : List Guest
  pub bookings : List Booking
  pub booking_rooms : List BookingRoom
  pub occupancy : List Occupancy
  pub payments : List Payment
  pub stripe_events : List (String × String)
  pub jobs : List Job
  pub accounts : Accounts
