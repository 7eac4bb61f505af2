-- ===== src/Invariant/Sound.antt =====
-- The three invariants together.
use bealhouse.Prelude.{ℕ, ◌≡◌, refl, sym, ap, ◌∙◌, List, [], ◌∷◌, All, arith}
use bealhouse.Prelude.Int.{pos, ◌+ℤ◌}
use bealhouse.Db.Schema.{Store, Payment}
use bealhouse.Db.Session.{Action}
use bealhouse.Db.Keeps.{Keeps, Keeps-statement}
use bealhouse.Db.Reservations.{
  CreateBookingParams, create_booking, insert_booking_row, upsert_guest, put_guest,
  create_booking_room, insert_booking_room,
}
use bealhouse.Db.Occupancy.{delete_block}
use bealhouse.Kept.Interface.{IsKept, IsBooked, IsRecorded}
use bealhouse.Kept.Payments.{recorded}
use bealhouse.Invariant.Rooms.{IsSafe, rooms-IsKept, rooms-IsPosted}
use bealhouse.Invariant.Money.{IsPaid, collected, credit_to, +ℤ_zero}
use bealhouse.Invariant.Paid.{paid-IsKept, paid-IsRecorded, money-IsPaid}
use bealhouse.Invariant.Fresh.{
  IsFresh, Below, fresh-IsKept, shown-put_guest, shown-insert_booking_room,
}
use bealhouse.Invariant.Created.{
  fresh-IsPosted, fresh-IsBooked, rooms-IsBooked, inserted, fresh_books,
}

pub record IsSound (d : Store) : Type 0 where
  pub safe : IsSafe d
  pub paid : IsPaid d
  pub fresh : IsFresh d

sound :
    {A : Type 0} (m : Action A)
    → Keeps IsSafe m
    → Keeps IsPaid m
    → Keeps IsFresh m
    → Keeps IsSound m
sound m ks kp kf = record {
  at = λ s h. record { safe = ks.at s h.safe; paid = kp.at s h.paid; fresh = kf.at s h.fresh };
}

pub IsSound-IsKept : IsKept IsSound
IsSound-IsKept = record {
  claims =
      λ arg. sound _ (rooms-IsKept.claims arg) (paid-IsKept.claims arg) (fresh-IsKept.claims arg);
  promotes =
      λ id. sound _ (rooms-IsKept.promotes id) (paid-IsKept.promotes id) (fresh-IsKept.promotes id);
  releases =
      λ id. sound _ (rooms-IsKept.releases id) (paid-IsKept.releases id) (fresh-IsKept.releases id);
  sweeps = sound _ rooms-IsKept.sweeps paid-IsKept.sweeps fresh-IsKept.sweeps;
  notes = λ id type.
      sound _ (rooms-IsKept.notes id type) (paid-IsKept.notes id type) (fresh-IsKept.notes id type);
  saves = λ id x y.
      sound _ (rooms-IsKept.saves id x y) (paid-IsKept.saves id x y) (fresh-IsKept.saves id x y);
  confirms =
      λ id. sound _ (rooms-IsKept.confirms id) (paid-IsKept.confirms id) (fresh-IsKept.confirms id);
  cancels =
      λ id. sound _ (rooms-IsKept.cancels id) (paid-IsKept.cancels id) (fresh-IsKept.cancels id);
  starts = λ id x.
      sound _ (rooms-IsKept.starts id x) (paid-IsKept.starts id x) (fresh-IsKept.starts id x);
  flags = λ id. sound _ (rooms-IsKept.flags id) (paid-IsKept.flags id) (fresh-IsKept.flags id);
  warns = λ id. sound _ (rooms-IsKept.warns id) (paid-IsKept.warns id) (fresh-IsKept.warns id);
  departs =
      λ id. sound _ (rooms-IsKept.departs id) (paid-IsKept.departs id) (fresh-IsKept.departs id);
  stamps = λ e. sound _ (rooms-IsKept.stamps e) (paid-IsKept.stamps e) (fresh-IsKept.stamps e);
  forgets = λ e. sound _ (rooms-IsKept.forgets e) (paid-IsKept.forgets e) (fresh-IsKept.forgets e);
  expires = sound _ rooms-IsKept.expires paid-IsKept.expires fresh-IsKept.expires;
  queues =
      λ arg. sound _ (rooms-IsKept.queues arg) (paid-IsKept.queues arg) (fresh-IsKept.queues arg);
  leases = λ n. sound _ (rooms-IsKept.leases n) (paid-IsKept.leases n) (fresh-IsKept.leases n);
  drops = λ id. sound _ (rooms-IsKept.drops id) (paid-IsKept.drops id) (fresh-IsKept.drops id);
  delays = λ id n x.
      sound _ (rooms-IsKept.delays id n x) (paid-IsKept.delays id n x) (fresh-IsKept.delays id n x);
}

pub IsSound-IsRecorded : IsRecorded IsSound
IsSound-IsRecorded =
    let rooms = recorded rooms-IsKept rooms-IsPosted in
    let ids = recorded fresh-IsKept fresh-IsPosted in
    record {
      charges = λ c h. sound _ (rooms.charges c h) (paid-IsRecorded.charges c h) (ids.charges c h);
      failures = λ c. sound _ (rooms.failures c) (paid-IsRecorded.failures c) (ids.failures c);
      refunds = λ c. sound _ (rooms.refunds c) (paid-IsRecorded.refunds c) (ids.refunds c);
    }

-- No payment names an id that is still to be given out.
unpaid : (n : ℕ) (ps : List Payment) → All (λ p. Below n p.booking_id) ps → collected n ps ≡ pos 0
unpaid n [] h = refl
unpaid n (p ∷ ps) (hp, hs) =
    ap (λ z. z +ℤ collected n ps) (other n p hp)
    ∙ ap (λ z. pos 0 +ℤ z) (unpaid n ps hs)
    ∙ +ℤ_zero (pos 0)
  where
    other : (n : ℕ) (p : Payment) → Below n p.booking_id → credit_to n p ≡ pos 0
    other n p h = ground arith

books-IsPaid :
    (arg : CreateBookingParams) (d : Store)
    → IsPaid d
    → IsFresh d
    → IsPaid (insert_booking_row arg d).1
books-IsPaid arg d h f = inserted IsPaid arg d h (sym (unpaid d.next_id d.payments f.payments), h)

pub IsSound-IsBooked : IsBooked IsSound
unfolding create_booking upsert_guest create_booking_room delete_block
IsSound-IsBooked = record {
  upserts = λ email name phone.
      sound _ (rooms-IsBooked.upserts email name phone)
        (Keeps-statement _ (λ d.
          money-IsPaid d (put_guest email name phone d).1 (shown-put_guest email name phone d)))
        (fresh-IsBooked.upserts email name phone);
  books = λ arg. Keeps-statement _ (λ d h. record {
    safe = inserted IsSafe arg d h.safe h.safe;
    paid = books-IsPaid arg d h.paid h.fresh;
    fresh = fresh_books arg d h.fresh;
  });
  assigns = λ r.
      sound _ (rooms-IsBooked.assigns r)
        (Keeps-statement _
          (λ d. money-IsPaid d (insert_booking_room r d).1 (shown-insert_booking_room r d)))
        (fresh-IsBooked.assigns r);
  unblocks = λ id.
      sound _ (rooms-IsBooked.unblocks id) (Keeps-statement _ (λ d h. h))
        (fresh-IsBooked.unblocks id);
}
