-- ===== src/Lib.antt =====
-- A model of Beal House's booking engine, and what makes it correct.
--
-- The program lets guests search and hold a room, takes their payments, cancels and refunds by a
-- policy, charges balances on schedule, and lets the owners write bookings down and block rooms. All
-- of its state is in a database: an exclusion constraint decides who has a room, a table of payments
-- is the ledger, and a table of jobs is the queue that mail, refunds and scheduled work go through.
--
-- Parts, and the code that they follow:
--   * Prelude: lists (Prelude.Rows and Prelude.Counts: the rows of a table), integers, wrapping int64
--     arithmetic (Prelude.Int64) and the text functions of Go's library that the program uses
--     (Prelude.Text).
--   * Civil: internal/civil/civil.go, with Civil.Months for `AddMonths`.
--   * Pricing: internal/pricing/pricing.go, on int64 cents.
--   * Db: the tables of internal/db/gen/models.go (Schema), connections (Session), and the statements
--     of internal/db/gen: occupancy.sql.go (Occupancy), payments.sql.go (Payments, Bookings),
--     bookings.sql.go (Bookings, Reservations, Departures), availability.sql.go (Availability,
--     Nights), jobs.sql.go (Queue), admin.sql.go (Accounts, Enrollments, Devices, Subscriptions), with
--     the constraints of internal/db/migrations. Db.Keeps and Db.Ensures are the rules
--     for what an action keeps and what its success leaves.
--   * Jobs: internal/jobs/jobs.go. Exclusion follows a lease while others use the queue, Leases
--     has the waits. Mail: `Queue` of internal/email/send.go and internal/push/push.go.
--     Push: `Handler` of internal/push/push.go, which Push.Forgotten follows.
--   * Occupancy: internal/occupancy/occupancy.go. Availability: `Search` of
--     internal/availability/availability.go, and Availability.Calendar is calendar.go. Runs and
--     Stitched follow its runs. Spans, Arrival and Nightly tell the search night by night, Offers
--     holds it against the constraint on claims; Answers is what it answers with, against which Picker
--     and Agreement hold the calendar.
--   * Payments: internal/payments. Charge, Record and Rooms are `RecordCharge`, `RecordFailure`,
--     `RecordRefund` and `secureRoom` of payments.go; Cancel is cancel.go; Ledger and Refunding are
--     refund.go; Open is open.go; Balances is balance.go; Letters is confirmation.go; Gateway is the
--     processor's interface of gateway.go, a parameter.
--   * Booking: `Create` of internal/booking/booking.go (Request, Create), the sweep of sweeper.go,
--     the links of link.go (Link), whose base 36 Signed reads back, and the mail of checkout.go
--     (Checkout), which Reminded follows.
--   * Console: internal/console/bookings.go and calendar.go, the operations that change something.
--     Console.Notices: the push subscriptions of content.go.
--   * Kept: every operation keeps what its statements keep (Interface names the statements);
--     Delivery follows the row of a job through a round of the runner.
--     Invariant: the invariants of the tables. System: the handlers that cmd/server/main.go registers,
--     the operations that anyone calls, and the stores that they reach.
--   * RateLimit: the token buckets of internal/httpx/ratelimit.go. Worth counts a bucket in time,
--     Bound a run of requests.
--   * Admin: internal/admin, the owners' accounts: constants, tokens and `loadAccount` of admin.go.
--     Devices is session.go, Login is login.go, Enroll is enroll.go, Origin is `NewRP`. Kept and
--     Operations: every operation keeps what its statements keep; Tables has the rules of an INSERT
--     and of a claim.
--     Reach is the operations in any order, with the two halves of a revocation apart, Race is two
--     revocations that overlap, Ceiling and WayIn the invariants of Reach. Once, Invited, Out,
--     Entered and Second follow a ceremony, an invitation, a revocation, a sign-in
--     and a first enrollment.
--   * Tests: a small inn, and the theorems there.
--
-- How state and errors are modelled. A `Session` is the store and a list that says which of the
-- coming statements fail and how, so every theorem over sessions covers a lost connection, a deadlock
-- or a crash before any statement. An operation is a function from a session to its outcome and the
-- session after it. `transaction` puts the tables back unless the body succeeds and the server does
-- the commit; a commit can be done and its answer lost (`unanswered`). Operations of different users
-- follow one another as whole transactions, which the model assumes of Postgres. A revocation of a
-- passkey, whose count holds no lock, stands in two halves (`may_revoke`, `remove_phone`) between
-- which others come in.
--
-- Choices. Dates are numbers of days. Instants are seconds. A mail is the job that sends it, with its
-- template, booking and amount. `fmt.Errorf` with %w is the error that it wraps. Random bytes, today's
-- date, Go's clock, the processor and the delivery services are arguments. `Jobs.Runner.drain` takes
-- fuel for its rounds, which no theorem of the list below uses; `insert_booking` takes the three
-- attempts of `codeAttempts`; `format_bits` takes 13 digits, enough for 64 bits in base 36 (`enough` of
-- Booking.Signed). The keyed hash of a link is a parameter. In Admin, the passkey library go-webauthn
-- is the parameter `Webauthn`, SHA-256 and base64 are the parameter `Crypto`, and bytes are texts
-- whose characters are bytes.
--
-- Not modelled: the http layer, templates and PDF, the clients of the processor and of the push
-- services, media, rates and their rebuild, the room page, the read-only screens of the console and its
-- texts, photographs and guests.
pub mod Prelude
pub mod Civil
pub mod Db
pub mod Pricing
pub mod Jobs
pub mod Mail
pub mod Availability
pub mod Occupancy
pub mod Payments
pub mod Booking
pub mod Console
pub mod Kept
pub mod Invariant
pub mod System
pub mod RateLimit
pub mod Admin
pub mod Push
pub mod Tests
