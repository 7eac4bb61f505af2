-- ===== src/Availability/Runs.antt =====
-- The runs that `group` of internal/availability/calendar.go makes, against the nights they are of.
use Prim.Native.String.{String}
use text.Mathlib.Text.{◌==◌ as str_eq}
use mathlib.Core.List.{append_assoc, append-nil}
use bealhouse.Prelude.{
  ◌≤◌, ◌≡◌, refl, sym, ap, ◌∙◌, true, false, not, List, [], ◌∷◌, ◌++◌, All, length,
}
use bealhouse.Prelude.Int.{ℤ, pos, eqb_ℤ}
use bealhouse.Civil.{Date, add_days}
use bealhouse.Db.Nights.{SellableNight}
use bealhouse.Availability.Calendar.{Span, RoomSpans, at_last, is_new_room, append_night, add_stay}

-- One night of a room, as the calendar shows it.
pub record Night : Type 0 where
  pub slug : String
  pub date : Date
  pub min_stay : ℤ

abbrev pub night : SellableNight → Night
night row = record { slug = row.slug; date = row.date; min_stay = row.min_stay }

-- The nights that a run stands for, and the day after the last of them.
abbrev pub run_nights : String → Date → List ℤ → List Night
run_nights slug start [] = []
run_nights slug start (m ∷ ms) =
    record { slug = slug; date = start; min_stay = m } ∷ run_nights slug (add_days start (pos 1)) ms

abbrev pub past : Date → List ℤ → Date
past start [] = start
past start (m ∷ ms) = past (add_days start (pos 1)) ms

abbrev pub room_nights : String → List Span → List Night
room_nights slug [] = []
room_nights slug (x ∷ xs) = run_nights slug x.start x.min_stays ++ room_nights slug xs

abbrev pub all_nights : List RoomSpans → List Night
all_nights [] = []
all_nights (r ∷ rs) = room_nights r.slug r.spans ++ all_nights rs

abbrev pub Next : {A : Type 0} → (A → A → Type 0) → A → List A → Type 0
Next R x [] = Unit {0}
Next R x (y ∷ ys) = R x y

-- A relation between neighbours.
abbrev pub Linked : {A : Type 0} → (A → A → Type 0) → List A → Type 0
Linked R [] = Unit {0}
Linked R (x ∷ xs) = Next R x xs × Linked R xs

-- A run that does not go on where the one before it ends.
abbrev pub Apart : Span → Span → Type 0
Apart x y = eqb_ℤ y.start (past x.start x.min_stays) ≡ false

abbrev pub IsFilled : Span → Type 0
IsFilled x = 1 ≤ length x.min_stays

abbrev pub IsBroken : RoomSpans → Type 0
IsBroken r = Linked Apart r.spans × All IsFilled r.spans

abbrev pub Elsewhere : RoomSpans → RoomSpans → Type 0
Elsewhere r q = str_eq r.slug q.slug ≡ false

abbrev pub IsMaximal : List RoomSpans → Type 0
IsMaximal out = Linked Elsewhere out × All IsBroken out

at_last-append :
    {A : Type 0} (f : A → A) (xs : List A) (x : A) → at_last f (xs ++ (x ∷ [])) ≡ xs ++ (f x ∷ [])
unfolding at_last
at_last-append f [] x = refl
at_last-append f (y ∷ []) x = refl
at_last-append f (y ∷ z ∷ zs) x = ap (λ l. y ∷ l) (at_last-append f (z ∷ zs) x)

pub is_new_room-append :
    (slug : String) (rs : List RoomSpans) (r : RoomSpans)
    → is_new_room slug (rs ++ (r ∷ [])) ≡ not (str_eq r.slug slug)
unfolding is_new_room
is_new_room-append slug [] r = refl
is_new_room-append slug (x ∷ []) r = refl
is_new_room-append slug (x ∷ y ∷ ys) r = is_new_room-append slug (y ∷ ys) r

module _ {A : Type 0} (R : A → A → Type 0) where
  pub Linked-append :
      (xs : List A) (x y : A)
      → R x y
      → Linked R (xs ++ (x ∷ []))
      → Linked R ((xs ++ (x ∷ [])) ++ (y ∷ []))
  Linked-append [] x y h k = (h, (tt, tt))
  Linked-append (z ∷ []) x y h k = (k.0, Linked-append [] x y h k.1)
  Linked-append (z ∷ w ∷ ws) x y h k = (k.0, Linked-append (w ∷ ws) x y h k.1)

  pub Linked-at_last :
      (xs : List A) (x x' : A)
      → ((z : A) → R z x → R z x')
      → Linked R (xs ++ (x ∷ []))
      → Linked R (xs ++ (x' ∷ []))
  Linked-at_last [] x x' h k = (tt, tt)
  Linked-at_last (z ∷ []) x x' h k = (h z k.0, (tt, tt))
  Linked-at_last (z ∷ w ∷ ws) x x' h k = (k.0, Linked-at_last (w ∷ ws) x x' h k.1)

pub All-at_last :
    {A : Type 0} (P : A → Type 0) (xs : List A) (x x' : A)
    → (P x → P x')
    → All P (xs ++ (x ∷ []))
    → All P (xs ++ (x' ∷ []))
All-at_last P [] x x' h k = (h k.0, tt)
All-at_last P (z ∷ zs) x x' h k = (k.0, All-at_last P zs x x' h k.1)

run_nights-append :
    (slug : String) (start : Date) (ms : List ℤ) (m : ℤ)
    → run_nights slug start (ms ++ (m ∷ []))
      ≡ run_nights slug start ms
        ++ (record { slug = slug; date = past start ms; min_stay = m } ∷ [])
run_nights-append slug start [] m = refl
run_nights-append slug start (n ∷ ms) m =
    ap (λ l. record { slug = slug; date = start; min_stay = n } ∷ l)
      (run_nights-append slug (add_days start (pos 1)) ms m)

pub past-append :
    (start : Date) (ms : List ℤ) (m : ℤ)
    → past start (ms ++ (m ∷ [])) ≡ add_days (past start ms) (pos 1)
past-append start [] m = refl
past-append start (n ∷ ms) m = past-append (add_days start (pos 1)) ms m

room_nights-append :
    (slug : String) (xs ys : List Span)
    → room_nights slug (xs ++ ys) ≡ room_nights slug xs ++ room_nights slug ys
room_nights-append slug [] ys = refl
room_nights-append slug (x ∷ xs) ys =
    ap (λ l. run_nights slug x.start x.min_stays ++ l) (room_nights-append slug xs ys)
    ∙ sym (
        append_assoc (run_nights slug x.start x.min_stays) (room_nights slug xs)
          (room_nights slug ys))

all_nights-append :
    (rs qs : List RoomSpans) → all_nights (rs ++ qs) ≡ all_nights rs ++ all_nights qs
all_nights-append [] qs = refl
all_nights-append (r ∷ rs) qs =
    ap (λ l. room_nights r.slug r.spans ++ l) (all_nights-append rs qs)
    ∙ sym (append_assoc (room_nights r.slug r.spans) (all_nights rs) (all_nights qs))

-- A room whose last run is open.
abbrev pub room_of : String → List Span → Span → RoomSpans
room_of slug runs x = record { slug = slug; spans = runs ++ (x ∷ []) }

abbrev pub begun : SellableNight → Span
begun row = record { start = row.date; min_stays = row.min_stay ∷ [] }

module _ (rooms : List RoomSpans) (slug : String) (runs : List Span) (x : Span) where
  abbrev pub so_far : List RoomSpans
  so_far = rooms ++ (room_of slug runs x ∷ [])

  -- The three ways of the loop's body.
  module _ (row : SellableNight) where
    abbrev pub with_room : List RoomSpans
    with_room = so_far ++ (room_of row.slug [] (begun row) ∷ [])

    abbrev pub with_run : List RoomSpans
    with_run = rooms ++ (room_of slug (runs ++ (x ∷ [])) (begun row) ∷ [])

    abbrev pub with_night : List RoomSpans
    with_night = rooms ++ (room_of slug runs (add_stay row.min_stay x) ∷ [])

    pub append_night-with_room : append_night true true row so_far ≡ with_room
    unfolding at_last
    append_night-with_room = at_last-append _ so_far _

    pub append_night-with_run : append_night false true row so_far ≡ with_run
    append_night-with_run =
        at_last-append _ rooms _
        ∙ ap (λ l. rooms ++ (record { slug = slug; spans = l } ∷ []))
            (at_last-append (add_stay row.min_stay) (runs ++ (x ∷ []))
              (record { start = row.date; min_stays = [] }))

    pub append_night-with_night : append_night false false row so_far ≡ with_night
    append_night-with_night =
        at_last-append _ rooms _
        ∙ ap (λ l. rooms ++ (record { slug = slug; spans = l } ∷ []))
            (at_last-append (add_stay row.min_stay) runs x)

    pub all_nights-with_room : all_nights with_room ≡ all_nights so_far ++ (night row ∷ [])
    all_nights-with_room = all_nights-append so_far (room_of row.slug [] (begun row) ∷ [])

    all_nights-last :
        (xs ys : List Span) (ns : List Night)
        → room_nights slug ys ≡ room_nights slug xs ++ ns
        → all_nights (rooms ++ (record { slug = slug; spans = ys } ∷ []))
          ≡ all_nights (rooms ++ (record { slug = slug; spans = xs } ∷ [])) ++ ns
    all_nights-last xs ys ns h =
        rw
          (
            all_nights-append rooms (record { slug = slug; spans = ys } ∷ []),
            all_nights-append rooms (record { slug = slug; spans = xs } ∷ []),
            append-nil (room_nights slug ys),
            append-nil (room_nights slug xs),
            h,
          )
          (sym (append_assoc (all_nights rooms) (room_nights slug xs) ns))

    abbrev pub here : Night
    here = record { slug = slug; date = row.date; min_stay = row.min_stay }

    pub all_nights-with_run : all_nights with_run ≡ all_nights so_far ++ (here ∷ [])
    all_nights-with_run =
        all_nights-last (runs ++ (x ∷ [])) ((runs ++ (x ∷ [])) ++ (begun row ∷ [])) (here ∷ [])
          (room_nights-append slug (runs ++ (x ∷ [])) (begun row ∷ []))

    pub all_nights-with_night :
        past x.start x.min_stays ≡ row.date
        → all_nights with_night ≡ all_nights so_far ++ (here ∷ [])
    all_nights-with_night h =
        all_nights-last (runs ++ (x ∷ [])) (runs ++ (add_stay row.min_stay x ∷ [])) (here ∷ [])
          extended
      where
        extended :
            room_nights slug (runs ++ (add_stay row.min_stay x ∷ []))
            ≡ room_nights slug (runs ++ (x ∷ [])) ++ (here ∷ [])
        extended =
            rw
              (
                room_nights-append slug runs (add_stay row.min_stay x ∷ []),
                room_nights-append slug runs (x ∷ []),
                append-nil (run_nights slug x.start (x.min_stays ++ (row.min_stay ∷ []))),
                append-nil (run_nights slug x.start x.min_stays),
                run_nights-append slug x.start x.min_stays row.min_stay,
                h,
              )
              (sym (
                append_assoc (room_nights slug runs) (run_nights slug x.start x.min_stays)
                  (here ∷ [])))
