-- ===== src/Availability/Stitched.antt =====
-- `group` of internal/availability/calendar.go, followed night by night.
use Prim.Native.String.{String}
use text.Mathlib.Text.{◌==◌ as str_eq}
use text.Mathlib.TextEquality.{eq_iff}
use mathlib.Core.List.{append_assoc, append-nil}
use bealhouse.Prelude.{
  ◌≡◌, refl, sym, ap, ◌∙◌, Bool, true, false, not, ◌||◌, List, [], ◌∷◌, ◌++◌, map, length-append,
  arith,
}
use bealhouse.Prelude.Rows.{All-append}
use bealhouse.Prelude.Int.{pos, eqb_ℤ, eq_of_parts}
use bealhouse.Civil.{Date, add_days}
use bealhouse.Db.Nights.{SellableNight}
use bealhouse.Availability.Calendar.{
  Span, RoomSpans, at_last, is_new_room, append_night, add_stay, stitch, group_from, group,
}
use bealhouse.Availability.Runs.{
  Night, night, past, all_nights, Apart, IsFilled, IsBroken, Elsewhere, IsMaximal, Linked-append,
  Linked-at_last, All-at_last, is_new_room-append, past-append, room_of, begun, so_far, with_room,
  with_run, with_night, here, append_night-with_room, append_night-with_run,
  append_night-with_night, all_nights-with_room, all_nights-with_run, all_nights-with_night,
}

-- What has been made stands for the nights read, in runs that cannot be longer.
abbrev Done : List RoomSpans → List Night → Type 0
Done out ns = (all_nights out ≡ ns) × IsMaximal out

module _ (rooms : List RoomSpans) (slug : String) (runs : List Span) (x : Span)
    (row : SellableNight) where
  with_room-IsMaximal :
      str_eq slug row.slug ≡ false
      → IsMaximal (so_far rooms slug runs x)
      → IsMaximal (with_room rooms slug runs x row)
  with_room-IsMaximal other h = (
    Linked-append Elsewhere rooms (room_of slug runs x) (room_of row.slug [] (begun row)) other h.0,
    All-append IsBroken (so_far rooms slug runs x) _ h.1 (((tt, tt), (omega arith, tt)), tt),
  )

  with_run-IsMaximal :
      eqb_ℤ row.date (past x.start x.min_stays) ≡ false
      → IsMaximal (so_far rooms slug runs x)
      → IsMaximal (with_run rooms slug runs x row)
  with_run-IsMaximal gap h = (
    Linked-at_last Elsewhere rooms (room_of slug runs x)
        (room_of slug (runs ++ (x ∷ [])) (begun row)) (λ z e. e) h.0,
    All-at_last IsBroken rooms (room_of slug runs x) (room_of slug (runs ++ (x ∷ [])) (begun row))
        (λ b. (
          Linked-append Apart runs x (begun row) gap b.0,
          All-append IsFilled (runs ++ (x ∷ [])) (begun row ∷ []) b.1 (omega arith, tt),
        ))
        h.1,
  )

  with_night-IsMaximal :
      IsMaximal (so_far rooms slug runs x) → IsMaximal (with_night rooms slug runs x row)
  with_night-IsMaximal h = (
    Linked-at_last Elsewhere rooms (room_of slug runs x)
        (room_of slug runs (add_stay row.min_stay x)) (λ z e. e) h.0,
    All-at_last IsBroken rooms (room_of slug runs x) (room_of slug runs (add_stay row.min_stay x))
        (λ b. (
          Linked-at_last Apart runs x (add_stay row.min_stay x) (λ z e. e) b.0,
          All-at_last IsFilled runs x (add_stay row.min_stay x)
              (λ f. omega (arith, length-append x.min_stays (row.min_stay ∷ []))) b.1,
        ))
        h.1,
  )

  stitch-so_far :
      (prev : Date)
      → stitch (so_far rooms slug runs x) prev row
        ≡ append_night
            (not (str_eq slug row.slug))
            (not (str_eq slug row.slug) || not (eqb_ℤ row.date (add_days prev (pos 1))))
            row
            (so_far rooms slug runs x)
  unfolding stitch
  stitch-so_far prev =
      ap
        (λ n.
          append_night n (n || not (eqb_ℤ row.date (add_days prev (pos 1)))) row
            (so_far rooms slug runs x))
        (is_new_room-append row.slug rooms (room_of slug runs x))

  -- One turn of the loop.
  turned :
      (out : List RoomSpans) (prev : Date) (rows : List SellableNight)
      → stitch (so_far rooms slug runs x) prev row ≡ out
      → all_nights out ≡ all_nights (so_far rooms slug runs x) ++ (night row ∷ [])
      → Done (group_from out row.date rows) (all_nights out ++ map night rows)
      → Done
          (group_from (stitch (so_far rooms slug runs x) prev row) row.date rows)
          (all_nights (so_far rooms slug runs x) ++ (night row ∷ map night rows))
  turned out prev rows e added done = rw e (
    done.0
        ∙ ap (λ l. l ++ map night rows) added
        ∙ append_assoc (all_nights (so_far rooms slug runs x)) (night row ∷ []) (map night rows),
    done.1,
  )

  named_alike : str_eq slug row.slug ≡ true → here rooms slug runs x row ≡ night row
  named_alike h =
      ap (λ s. record { slug = s; date = row.date; min_stay = row.min_stay })
        ((eq_iff slug row.slug).0 h)

grouped :
    (rooms : List RoomSpans) (slug : String) (runs : List Span) (x : Span) (prev : Date)
    (rows : List SellableNight)
    → past x.start x.min_stays ≡ add_days prev (pos 1)
    → IsMaximal (so_far rooms slug runs x)
    → Done
        (group_from (so_far rooms slug runs x) prev rows)
        (all_nights (so_far rooms slug runs x) ++ map night rows)
unfolding group_from
grouped rooms slug runs x prev [] reaches h = (sym (append-nil _), h)
grouped rooms slug runs x prev (row ∷ rows) reaches h =
    go (λ rs s xs y. grouped rs s xs y row.date rows) (str_eq slug row.slug) refl
      (eqb_ℤ row.date (add_days prev (pos 1))) refl
  where
    met : eqb_ℤ row.date (add_days prev (pos 1)) ≡ true → past x.start x.min_stays ≡ row.date
    met f = reaches ∙ sym (eq_of_parts row.date (add_days prev (pos 1)) (ground arith))

    go :
        ((rs : List RoomSpans) (s : String) (xs : List Span) (y : Span)
          → past y.start y.min_stays ≡ add_days row.date (pos 1)
          → IsMaximal (so_far rs s xs y)
          → Done
              (group_from (so_far rs s xs y) row.date rows)
              (all_nights (so_far rs s xs y) ++ map night rows))
        → (same : Bool) → str_eq slug row.slug ≡ same
        → (next : Bool) → eqb_ℤ row.date (add_days prev (pos 1)) ≡ next
        → Done
            (group_from (stitch (so_far rooms slug runs x) prev row) row.date rows)
            (all_nights (so_far rooms slug runs x) ++ (night row ∷ map night rows))
    go more false e next f =
        turned rooms slug runs x row (with_room rooms slug runs x row) prev rows
          (rw (stitch-so_far rooms slug runs x row prev, e)
            (append_night-with_room rooms slug runs x row))
          (all_nights-with_room rooms slug runs x row)
          (more (so_far rooms slug runs x) row.slug [] (begun row) refl
            (with_room-IsMaximal rooms slug runs x row e h))
    go more true e false f =
        turned rooms slug runs x row (with_run rooms slug runs x row) prev rows
          (rw (stitch-so_far rooms slug runs x row prev, e, f)
            (append_night-with_run rooms slug runs x row))
          (rw (← named_alike rooms slug runs x row e) (all_nights-with_run rooms slug runs x row))
          (more rooms slug (runs ++ (x ∷ [])) (begun row) refl
            (with_run-IsMaximal rooms slug runs x row (rw reaches f) h))
    go more true e true f =
        turned rooms slug runs x row (with_night rooms slug runs x row) prev rows
          (rw (stitch-so_far rooms slug runs x row prev, e, f)
            (append_night-with_night rooms slug runs x row))
          (rw (← named_alike rooms slug runs x row e)
            (all_nights-with_night rooms slug runs x row (met f)))
          (more rooms slug runs (add_stay row.min_stay x)
            (past-append x.start x.min_stays row.min_stay ∙ ap (λ d. add_days d (pos 1)) (met f))
            (with_night-IsMaximal rooms slug runs x row h))

-- The runs of `group` stand for exactly the nights that it was given, in their order, each with its
-- room and its minimum stay; and no run could be longer: none is empty, no run starts on the day after
-- the one before it in its room, and no two neighbouring entries are of one room.
pub group_faithful :
    (rows : List SellableNight)
    → (all_nights (group rows) ≡ map night rows) × IsMaximal (group rows)
unfolding group group_from stitch at_last is_new_room
group_faithful [] = (refl, (tt, tt))
group_faithful (row ∷ rows) =
    grouped [] row.slug [] (begun row) row.date rows refl
      ((tt, tt), (((tt, tt), (omega arith, tt)), tt))
