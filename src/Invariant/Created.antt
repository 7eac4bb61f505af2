-- ===== src/Invariant/Created.antt =====
-- The statements that write down a booking, a payment or a block, against the three invariants.
use Prim.Native.String.{String}
use text.Mathlib.Text.{◌==◌ as str_eq}
use bealhouse.Prelude.{ℕ, ◌≡◌, refl, ◌+◌, Bool, true, false, not, ◌&&◌, ◌∷◌, any, ◌==◌, arith}
use bealhouse.Prelude.Int.{ℤ, ◌+ℤ◌}
use bealhouse.Db.Schema.{Store, BookingRoom}
use bealhouse.Db.Keeps.{Keeps-statement}
use bealhouse.Db.Occupancy.{delete_block}
use bealhouse.Db.Payments.{
  RecordPaymentParams, record_payment, insert_payment, payment_of, is_payment, same_payment,
}
use bealhouse.Db.Bookings.{add_payment_to_booking, add_payment, add_paid, is_amount}
use bealhouse.Db.Reservations.{
  CreateBookingParams, create_booking, insert_booking_row, upsert_guest, put_guest,
  create_booking_room, insert_booking_room, booking_of, is_booking,
}
use bealhouse.Kept.Interface.{IsPosted, IsBooked}
use bealhouse.Invariant.Exclusive.{keep-IsExclusive}
use bealhouse.Invariant.Rooms.{IsSafe}
use bealhouse.Invariant.Fresh.{
  IsFresh, Below, grown, known-Below, All-append, stepped, shown-put_guest, put_guest_next,
  shown-insert_booking_room, booking_room_next, update-IsFresh,
}

insert_payment-IsFresh :
    (arg : RecordPaymentParams) (d : Store) → IsFresh d → IsFresh (insert_payment arg d).1
insert_payment-IsFresh arg d h = go _ _ _ refl refl refl
  where
    go :
        (valid dup known : Bool)
        → is_payment arg ≡ valid
        → any (same_payment arg.stripe_id arg.status) d.payments ≡ dup
        → any (λ b. b.id == arg.booking_id) d.bookings ≡ known
        → IsFresh (insert_payment arg d).1
    go false dup known hv hd hk = rw hv h
    go true true known hv hd hk = rw (hv, hd) h
    go true false false hv hd hk = rw (hv, hd, hk) h
    go true false true hv hd hk =
        rw (hv, hd, hk)
          (record {
            payments =
                All-append (λ p. Below (d.next_id + 1) p.booking_id) d.payments
                  (payment_of d.next_id arg) (stepped d h).payments
                  (known-Below (d.next_id + 1) arg.booking_id d.bookings hk (stepped d h).bookings);
            bookings = (stepped d h).bookings;
          })

add_payment-IsFresh : (id : ℕ) (x : ℤ) (d : Store) → IsFresh d → IsFresh (add_payment id x d).1
add_payment-IsFresh id x d h = go _ refl
  where
    go :
        (over : Bool)
        → any (λ b. b.id == id && not (is_amount (b.amount_paid_cents +ℤ x))) d.bookings ≡ over
        → IsFresh (add_payment id x d).1
    go true ho = rw ho h
    go false ho = rw ho (update-IsFresh id (add_paid x) d (λ b. refl) h)

pub fresh-IsPosted : IsPosted IsFresh
unfolding record_payment add_payment_to_booking
fresh-IsPosted = record {
  posts = λ arg. Keeps-statement _ (insert_payment-IsFresh arg);
  adds = λ id x. Keeps-statement _ (add_payment-IsFresh id x);
}

-- A booking that is new: the row, or the refusal.
pub inserted :
    (P : Store → Type 0) (arg : CreateBookingParams) (d : Store)
    → P d
    → P (record d {
      next_id = d.next_id + 1;
      bookings = booking_of d.next_id d.now arg ∷ d.bookings;
    })
    → P (insert_booking_row arg d).1
inserted P arg d h k = go _ _ _ refl refl refl
  where
    go :
        (valid dup known : Bool)
        → is_booking arg ≡ valid
        → any (λ b. str_eq b.code arg.code) d.bookings ≡ dup
        → any (λ g. g.id == arg.guest_id) d.guests ≡ known
        → P (insert_booking_row arg d).1
    go false dup known hv hd hk = rw hv h
    go true true known hv hd hk = rw (hv, hd) h
    go true false false hv hd hk = rw (hv, hd, hk) h
    go true false true hv hd hk = rw (hv, hd, hk) k

next-Below : (n : ℕ) → Below (n + 1) n
next-Below n = ground arith

pub fresh_books :
    (arg : CreateBookingParams) (d : Store) → IsFresh d → IsFresh (insert_booking_row arg d).1
fresh_books arg d h = inserted IsFresh arg d h (record {
  payments = (stepped d h).payments;
  bookings = (next-Below d.next_id, (stepped d h).bookings);
})

pub fresh-IsBooked : IsBooked IsFresh
unfolding upsert_guest create_booking create_booking_room delete_block
fresh-IsBooked = record {
  upserts = λ email name phone. Keeps-statement _ (λ d.
      grown d (put_guest email name phone d).1 (shown-put_guest email name phone d)
        (put_guest_next email name phone d));
  books = λ arg. Keeps-statement _ (λ d h. fresh_books arg d h);
  assigns = λ r. Keeps-statement _ (λ d.
      grown d (insert_booking_room r d).1 (shown-insert_booking_room r d) (booking_room_next r d));
  unblocks =
      λ id. Keeps-statement _ (λ d h. record { payments = h.payments; bookings = h.bookings });
}

put_guest_occupancy :
    (email name phone : String) (d : Store)
    → (put_guest email name phone d).1.occupancy ≡ d.occupancy
put_guest_occupancy email name phone d = ground arith

booking_room_occupancy :
    (r : BookingRoom) (d : Store) → (insert_booking_room r d).1.occupancy ≡ d.occupancy
booking_room_occupancy r d = ground arith

pub rooms-IsBooked : IsBooked IsSafe
unfolding upsert_guest create_booking create_booking_room delete_block
rooms-IsBooked = record {
  upserts =
      λ email name phone. Keeps-statement _ (λ d h. rw (put_guest_occupancy email name phone d) h);
  books = λ arg. Keeps-statement _ (λ d h. inserted IsSafe arg d h h);
  assigns = λ r. Keeps-statement _ (λ d h. rw (booking_room_occupancy r d) h);
  unblocks = λ id. Keeps-statement _ (λ d h. keep-IsExclusive _ d.occupancy h);
}
