-- ===== src/Kept/Bookings.antt =====
-- The making of a booking, and the owners' operations, keep what the statements keep.
use Prim.Native.String.{String}
use bealhouse.Prelude.{
  ℕ, zero, suc, Bool, true, false, List, [], ◌∷◌, Option, none, some, if◌then◌else◌,
}
use bealhouse.Civil.{Date}
use bealhouse.Db.Schema.{Store, Instant, Settings}
use bealhouse.Db.Session.{
  Action, Outcome, ok, err, Error, Session, round_trip, committed, enclosed, transaction,
}
use bealhouse.Db.Keeps.{
  Keeps, Keeps-bind, Keeps-pure, Keeps-raise, Keeps-raise_if, Keeps-if, Keeps-round_trip, ended,
  Keeps-transaction,
}
use bealhouse.Db.Availability.{OfferRow}
use bealhouse.Db.Reservations
use bealhouse.Db.Reservations.{CreateBookingParams}
use bealhouse.Occupancy.{translated, claiming}
use bealhouse.Availability
use bealhouse.Availability.{Room, search_rooms, search_valid, read_content, checked}
use bealhouse.Booking.Request
use bealhouse.Booking.Request.{new_code, validate}
use bealhouse.Booking.Create.{
  is_duplicate_code, insert_booking, unless_aborted, pick, book, book_picked, search_and_book,
  create,
}
use bealhouse.Kept.Interface.{IsKept, IsBooked, settings-Keeps, search-Keeps}
use bealhouse.Kept.Payments.{create-Keeps}

claimed_kept :
    {A : Type 0} (P : Store → Type 0) (r : Outcome A) (t : Session) (before : Store)
    → P (ended before r t).1.db
    → P
        (elim r as (λ _. Outcome A × Session) [
          | ok a ↦ let (q, u) = committed a before t.fate t.db in (translated q, u)
          | err e ↦ (err e, record t { db = before })
        ]).1.db
claimed_kept P (ok a) t before h = h
claimed_kept P (err e) t before h = h

module _ {A : Type 0} {P : Store → Type 0} where
  claiming-Keeps : (m : Action A) → Keeps P m → Keeps P (claiming m)
  unfolding claiming transaction
  claiming-Keeps m km = record {
    at = λ s h.
        claimed_kept P (enclosed m s).0 (enclosed m s).1 s.db ((Keeps-transaction m km).at s h);
  }

  pub checked-Keeps :
      {E : Type 0} (v : Outcome E) (m : Action A) → Keeps P m → Keeps P (checked v m)
  checked-Keeps (ok _) m km = km
  checked-Keeps (err e) m km = Keeps-raise e

module _ {P : Store → Type 0} where
  content-Keeps : (rows : List OfferRow) → Keeps P (read_content rows)
  unfolding read_content
  content-Keeps [] = Keeps-pure _
  content-Keeps (row ∷ rows) = Keeps-bind round_trip _ Keeps-round_trip (λ _. Keeps-round_trip)

  search_valid-Keeps : (s : Settings) (req : Availability.Request) → Keeps P (search_valid s req)
  unfolding search_valid
  search_valid-Keeps s req =
      Keeps-bind _ _ (search-Keeps _ _ _)
        (λ rows. Keeps-bind _ _ (content-Keeps rows) (λ _. Keeps-pure _))

  pub search_rooms-Keeps :
      (today : Date) (req : Availability.Request) → Keeps P (search_rooms today req)
  unfolding search_rooms
  search_rooms-Keeps today req =
      Keeps-bind _ _ settings-Keeps (λ s. checked-Keeps _ _ (search_valid-Keeps s req))

module _ {P : Store → Type 0} (k : IsKept P) (w : IsBooked P) where
  unless_aborted-Keeps :
      (aborted : Bool) (arg : CreateBookingParams)
      → Keeps P (unless_aborted aborted (Reservations.create_booking arg))
  unless_aborted-Keeps aborted arg = Keeps-if aborted _ _ (Keeps-raise _) (w.books arg)

  insert_booking-Keeps :
      (arg : String → CreateBookingParams) (random : ℕ → List ℕ) (n : ℕ) (aborted : Bool)
      → Keeps P (insert_booking arg random n aborted)
  unfolding insert_booking
  insert_booking-Keeps arg random zero aborted = record { at = λ s h. h }
  insert_booking-Keeps arg random (suc n) aborted = record {
    at = λ s h.
        go (unless_aborted aborted (Reservations.create_booking (arg (new_code (random n)))) s).0
          (unless_aborted aborted (Reservations.create_booking (arg (new_code (random n)))) s).1
          ((unless_aborted-Keeps aborted (arg (new_code (random n)))).at s h)
          (λ t. (insert_booking-Keeps arg random n true).at t);
  }
    where
      tried :
          (b : Bool) (e : Error) (s' : Session)
          → P s'.db
          → ((t : Session) → P t.db → P (insert_booking arg random n true t).1.db)
          → P (if b then insert_booking arg random n true s' else (err e, s')).1.db
      tried true e s' h again = again s' h
      tried false e s' h again = h

      go :
          (r : Outcome ℕ) (s' : Session)
          → P s'.db
          → ((t : Session) → P t.db → P (insert_booking arg random n true t).1.db)
          → P
              (elim r as (λ _. Outcome (String × ℕ) × Session) [
                | ok id ↦ (ok (new_code (random n), id), s')
                | err e ↦
                    if is_duplicate_code e then insert_booking arg random n true s' else (err e, s')
              ]).1.db
      go (ok id) s' h again = h
      go (err e) s' h again = tried (is_duplicate_code e) e s' h again

  module _ (clock : Instant) (today : Date) where
    book-Keeps :
        (random : ℕ → List ℕ) (req : Request.Request) (s : Settings) (room : Room)
        → ((code : String) → Keeps P (req.after_create code))
        → Keeps P (book clock today random req s room)
    unfolding book
    book-Keeps random req s room hook = Keeps-bind _ _ (Keeps-raise_if _ _) (λ _.
        Keeps-bind _ _ (w.upserts _ _ _) (λ guest_id.
          Keeps-bind _ _ (insert_booking-Keeps _ _ _ _) (λ made. Keeps-bind _ _ (w.assigns _) (λ _.
            Keeps-bind _ _ (create-Keeps k _)
              (λ _. Keeps-bind _ _ (hook made.0) (λ _. Keeps-pure _))))))

    book_picked-Keeps :
        (random : ℕ → List ℕ) (req : Request.Request) (s : Settings) (found : Option Room)
        → ((code : String) → Keeps P (req.after_create code))
        → Keeps P (book_picked clock today random req s found)
    book_picked-Keeps random req s none hook = Keeps-raise _
    book_picked-Keeps random req s (some room) hook = book-Keeps random req s room hook

    search_and_book-Keeps :
        (random : ℕ → List ℕ) (req : Request.Request)
        → ((code : String) → Keeps P (req.after_create code))
        → Keeps P (search_and_book clock today random req)
    unfolding search_and_book
    search_and_book-Keeps random req hook = Keeps-bind _ _ settings-Keeps (λ s.
        Keeps-bind _ _ (search_rooms-Keeps today _)
          (λ found. book_picked-Keeps random req s (pick req.room_slug found) hook))

    pub create_booking-Keeps :
        (random : ℕ → List ℕ) (req : Request.Request)
        → ((code : String) → Keeps P (req.after_create code))
        → Keeps P (create clock today random req)
    unfolding create
    create_booking-Keeps random req hook =
        checked-Keeps (validate req) _ (claiming-Keeps _ (search_and_book-Keeps random req hook))
