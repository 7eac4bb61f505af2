-- ===== src/Mail.antt =====
-- `Queue` of internal/email/send.go and of internal/push/push.go. A mail's payload is its template
-- with the booking's code and the amount that it names; its other fields are the same row's, as
-- text.
use Prim.Native.String.{String}
use text.Mathlib.Text.{◌==◌ as str_eq}
use bealhouse.Prelude.{none}
use bealhouse.Prelude.Int.{ℤ}
use bealhouse.Prelude.Text.{is_blank}
use bealhouse.Db.Schema.{mail, notification}
use bealhouse.Db.Session.{Action, pure, raise_if, ◌>>◌, no_recipient, no_template, no_title}
use bealhouse.Jobs.Enqueue.{enqueue}

pub record Envelope : Type 0 where
  pub recipient : String
  pub template : String
  pub code : String
  pub amount_cents : ℤ

abbrev pub job_kind : String
job_kind = "email.send"

abbrev pub push_job_kind : String
push_job_kind = "push.send"

unfoldable pub queue : Envelope → Action (Unit {0})
queue env = do
  raise_if (is_blank env.recipient) no_recipient
  raise_if (str_eq env.template "") no_template
  enqueue (record {
    kind = job_kind;
    run_at = none;
    payload = mail env.recipient env.template env.code env.amount_cents;
    unique_key = "";
  })
  pure tt

unfoldable pub queue_push : String → String → Action (Unit {0})
queue_push title tag = do
  raise_if (is_blank title) no_title
  enqueue (record {
    kind = push_job_kind;
    run_at = none;
    payload = notification title tag;
    unique_key = "";
  })
  pure tt
