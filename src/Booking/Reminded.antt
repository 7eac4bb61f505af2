-- ===== src/Booking/Reminded.antt =====
-- A guest who has been written to on the morning of the departure is not written to again.
use bealhouse.Prelude.{
  leb, ℕ, ◌≡◌, ◌≢◌, refl, Bool, true, false, ◌&&◌, List, [], ◌∷◌, Option, none, some, All, any,
  ◌++◌, keep, ◌==◌, arith, if◌then◌else◌,
}
use bealhouse.Prelude.Counts.{All-kept}
use bealhouse.Prelude.Rows.{All-imply}
use bealhouse.Prelude.Int.{pos}
use text.Mathlib.TextEquality.{eq_iff}
use bealhouse.Civil.{Date}
use text.Mathlib.Text.{◌==◌ as str_eq}
use bealhouse.Db.Schema.{
  Booking, Guest, Store, Instant, Job, Payload, mail, nothing, refund_of, notification,
}
use bealhouse.Db.Session.{Session, ok, exec}
use bealhouse.Db.Keeps.{Ensures}
use bealhouse.Db.Ensures.{
  Ensures-any, Ensures-bind, Ensures-pure, Ensures-statement, Ensures-transaction, ensured,
}
use bealhouse.Db.Bookings.{find_guest, is_null, patch}
use bealhouse.Db.Departures.{
  DepartureRow, place_row, with_guest, leaves, departures, mark_checkout_email_sent,
}
use bealhouse.Db.Queue.{enqueue_job, same_key}
use bealhouse.Jobs.Enqueue.{enqueue}
use bealhouse.Mail
use bealhouse.Booking.Checkout.{reminder, remind_one}

-- Every booking of the id has been written to.
abbrev IsWritten : ℕ → List Booking → Type 0
IsWritten id bs = All (λ b. b.id ≡ id → is_null b.checkout_email_sent_at ≡ false) bs

patch-IsWritten :
    (id : ℕ) (now : Instant) (bs : List Booking)
    → IsWritten id (patch id (λ b. record b { checkout_email_sent_at = some now }) bs)
patch-IsWritten id now [] = tt
patch-IsWritten id now (b ∷ bs) = (go (b.id == id) refl, patch-IsWritten id now bs)
  where
    go :
        (c : Bool)
        → (b.id == id) ≡ c
        → (if c then record b { checkout_email_sent_at = some now } else b).id ≡ id
        → is_null
            (if c then record b { checkout_email_sent_at = some now } else b).checkout_email_sent_at
          ≡ false
    go true e h = refl
    go false e h = absurd (ground arith)

-- The mail to a guest who leaves.
abbrev pub is_reminder : DepartureRow → Payload → Bool
is_reminder r (mail recipient template code cents) =
    str_eq recipient r.guest_email && str_eq template "checkout_reminder" && str_eq code r.code
is_reminder r nothing = false
is_reminder r (refund_of code cents) = false
is_reminder r (notification title tag) = false

-- The mail is in the queue.
abbrev pub IsQueued : DepartureRow → Store → Type 0
IsQueued r d = any (λ j. is_reminder r j.payload) d.jobs ≡ true

no_key : (js : List Job) → any (same_key none) js ≡ false
no_key [] = refl
no_key (j ∷ js) = no_key js

any-append_last :
    {A : Type 0} (p : A → Bool) (xs : List A) (x : A) → p x ≡ true → any p (xs ++ (x ∷ [])) ≡ true
any-append_last p [] x h = rw h refl
any-append_last p (y ∷ ys) x h = ground (arith, any-append_last p ys x h)

is_reminder-reminder :
    (r : DepartureRow)
    → is_reminder r (mail r.guest_email "checkout_reminder" r.code (pos 0)) ≡ true
is_reminder-reminder r =
    rw ((eq_iff r.guest_email r.guest_email).1 refl, (eq_iff r.code r.code).1 refl) refl

queue-IsQueued :
    (r : DepartureRow) {P : Store → Type 0}
    → Ensures P (Mail.queue (reminder r)) (λ done. IsQueued r)
unfolding Mail.queue enqueue enqueue_job
queue-IsQueued r =
    Ensures-bind _ _ (λ a d. Unit {0}) _ (Ensures-any _)
      (λ a.
        Ensures-bind _ _ (λ b d. Unit {0}) _ (Ensures-any _)
          (λ b.
            Ensures-bind _ _ (λ c. IsQueued r) _
              (Ensures-bind _ _ (λ n. IsQueued r) _
                (Ensures-statement _ (λ n. IsQueued r)
                  (λ d h. rw (no_key d.jobs) (
                    any-append_last (λ j. is_reminder r j.payload) d.jobs _
                      (is_reminder-reminder r))))
                (λ n. Ensures-pure (λ c. IsQueued r) _))
              (λ c. Ensures-pure (λ u. IsQueued r) tt)))

-- The mail is in the queue, and the booking has its note.
abbrev IsReminded : DepartureRow → Store → Type 0
IsReminded r d = IsQueued r d × IsWritten r.id d.bookings

marks :
    (r : DepartureRow) → Ensures (IsQueued r) (mark_checkout_email_sent r.id) (λ done. IsReminded r)
unfolding mark_checkout_email_sent exec
marks r = Ensures-statement _ _ (λ d h. (h, patch-IsWritten r.id d.now d.bookings))

remind_one-IsReminded :
    (r : DepartureRow) → Ensures (λ d. Unit {0}) (remind_one r) (λ done. IsReminded r)
unfolding remind_one
remind_one-IsReminded r = Ensures-transaction _ _ (
    Ensures-bind _ _ (λ rooms d. Unit {0}) _ (Ensures-any _)
      (λ rooms. Ensures-bind _ _ (λ queued. IsQueued r) _ (queue-IsQueued r) (λ queued. marks r)))

All-placed :
    (id : ℕ) (r : DepartureRow) (rows : List DepartureRow)
    → r.id ≢ id
    → All (λ x. x.id ≢ id) rows
    → All (λ x. x.id ≢ id) (place_row r rows)
unfolding place_row
All-placed id r [] h hs = (h, tt)
All-placed id r (x ∷ xs) h (k, ks) = go (leb r.id x.id) (All-placed id r xs h ks)
  where
    go :
        (b : Bool)
        → All (λ y. y.id ≢ id) (place_row r xs)
        → All (λ y. y.id ≢ id) (if b then r ∷ x ∷ xs else x ∷ place_row r xs)
    go true rest = (h, (k, ks))
    go false rest = (k, rest)

not_due :
    (id : ℕ) (gs : List Guest) (bs : List Booking)
    → All (λ b. b.id ≢ id) bs
    → All (λ r. r.id ≢ id) (departures gs bs)
unfolding departures
not_due id gs [] h = tt
not_due id gs (b ∷ bs) (h, hs) = go (find_guest b.guest_id gs) (not_due id gs bs hs)
  where
    go :
        (g : Option Guest)
        → All (λ r. r.id ≢ id) (departures gs bs)
        → All (λ r. r.id ≢ id) (with_guest g b (departures gs bs))
    go none rest = rest
    go (some g) rest = All-placed id _ _ h rest

-- After a guest has been written to, the mail is in the queue and the booking is not among those that
-- are due to be written to, on whichever day the list is made and whoever the guests are.
pub written_once :
    (r : DepartureRow) (s : Session)
    → (remind_one r s).0 ≡ ok tt
    → (on : Date) (gs : List Guest)
    → IsQueued r (remind_one r s).1.db
      × All (λ q. q.id ≢ r.id) (departures gs (keep (leaves on) (remind_one r s).1.db.bookings))
written_once r s h on gs =
    let (queued, written) = ensured (remind_one-IsReminded r) s tt tt h in
    (
      queued,
      not_due r.id gs (keep (leaves on) bookings) (
          All-kept _ (leaves on) bookings
            (All-imply _ _ bookings (λ b noted due same. ground (arith, noted same)) written)),
    )
  where
    bookings : List Booking
    bookings = (remind_one r s).1.db.bookings
