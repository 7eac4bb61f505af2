-- ===== src/Booking/Request.antt =====
-- What a guest asks for, in internal/booking/booking.go, and the codes of code.go.
use Prim.Native.String.{String, ◌++◌}
use bealhouse.Prelude.{
  ℕ, zero, suc, ◌%◌, Bool, true, not, ◌&&◌, ◌||◌, List, [], ◌∷◌, ltb, leb, if◌then◌else◌,
}
use bealhouse.Prelude.Int.{ℤ}
use bealhouse.Prelude.Text.{is_blank, trim_space, count_chars, contains_at, starts_at, ends_at}
use bealhouse.Civil.{Date}
use bealhouse.Db.Schema.{Status, pending, confirmed}
use bealhouse.Db.Session.{
  Action, Outcome, ok, err, guest_name_required, guest_email_required, guest_phone_required,
  guest_details_too_long, policies_not_accepted,
}

pub record Guest : Type 0 where
  pub name : String
  pub email : String
  pub phone : String

-- `after_create` is the hook; a nil one does nothing.
pub record Request : Type 0 where
  pub room_slug : String
  pub checkin : Date
  pub checkout : Date
  pub guests : ℤ
  pub guest : Guest
  pub expected_total_cents : ℤ
  pub manual : Bool
  pub accepted_policies : Bool
  pub after_create : String → Action (Unit {0})

-- `digits`
unfoldable pub digits : String → ℕ
unfolding count_chars
digits s = count_chars (λ c. leb 48 c && leb c 57) s

-- utf8.RuneCountInString
unfoldable pub runes : String → ℕ
unfolding count_chars
runes s = count_chars (λ c. true) s

abbrev pub is_address : String → Bool
is_address email = contains_at email && not (starts_at email) && not (ends_at email)

abbrev pub is_too_long : Guest → Bool
is_too_long g =
    ltb 200 (runes g.name) || ltb 254 (runes (trim_space g.email)) || ltb 40 (runes g.phone)

-- `Request.validate`
unfoldable pub validate : Request → Outcome (Unit {0})
validate req =
    if is_blank req.guest.name
    then err guest_name_required
    else if not (is_address (trim_space req.guest.email))
    then err guest_email_required
    else if ltb (digits req.guest.phone) 7
    then err guest_phone_required
    else if is_too_long req.guest
    then err guest_details_too_long
    else if not req.accepted_policies
    then err policies_not_accepted
    else ok tt

abbrev pub status : Request → Status
status req = if req.manual then confirmed else pending

-- `newCode`, from the random bytes.
abbrev letter_at : ℕ → String → String
letter_at i String.[] = ""
letter_at zero (String.◌∷◌ c s) = String.◌∷◌ c ""
letter_at (suc i) (String.◌∷◌ c s) = letter_at i s

unfoldable pub letters : List ℕ → String
letters [] = ""
letters (b ∷ bs) = letter_at (b % 32) "23456789ABCDEFGHJKLMNPQRSTUVWXYZ" ++ letters bs

unfoldable pub new_code : List ℕ → String
unfolding letters
new_code bytes = "BH-" ++ letters bytes
