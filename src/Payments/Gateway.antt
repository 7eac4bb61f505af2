-- ===== src/Payments/Gateway.antt =====
-- internal/payments/gateway.go: what the program asks of a payment processor. A processor is a
-- parameter: during one call of the program it answers a request by a function of that request,
-- as its idempotency keys make it.
use Prim.Native.String.{String}
use bealhouse.Prelude.{Bool}
use bealhouse.Prelude.Int.{ℤ}
use bealhouse.Db.Schema.{Kind}
use bealhouse.Db.Session.{Outcome, Error}

pub record IntentRequest : Type 0 where
  pub booking_code : String
  pub amount_cents : ℤ
  pub guest_email : String
  pub guest_name : String
  pub kind : Kind
  pub save_card : Bool
  pub moto : Bool

pub record Intent : Type 0 where
  pub id : String
  pub client_secret : String

pub record OffSessionRequest : Type 0 where
  pub booking_code : String
  pub amount_cents : ℤ
  pub customer_id : String
  pub payment_method_id : String

pub record RefundRequest : Type 0 where
  pub booking_code : String
  pub intent_id : String
  pub amount_cents : ℤ

-- An off-session charge succeeds, is declined with the intent that was declined, or fails.
pub data Reply : Type 0 where
  charged : Intent → Reply
  declined : String → Reply
  failure : Error → Reply

pub record Gateway : Type 0 where
  pub create_intent : IntentRequest → Outcome Intent
  pub charge_off_session : OffSessionRequest → Reply
  pub refund : RefundRequest → Outcome String
