-- ===== src/Tests/Phones.antt =====
-- The theorems on the owners' accounts, with two phones.
use Prim.Native.String.{String}
use bealhouse.Prelude.{
  sym, ◌+◌, ◌≤◌, ◌≡◌, refl, true, false, Bool, if◌then◌else◌, [], ◌∷◌, none, some, All, length, suc,
  arith,
}
use bealhouse.Prelude.Text.{trim_space, count_chars}
use text.Mathlib.Text.{◌==◌ as str_eq}
use text.Mathlib.TextEquality.{eq_iff}
use bealhouse.Admin.WayIn.{IsSingle}
use bealhouse.Db.Schema.{Store, User, UserPasskey, UserSession, UserEnrollment, Accounts}
use bealhouse.Db.Session.{
  Session, ok, succeeded, pure, raise, raise_if, statement, query, exec, round_trip, enclosed,
  transaction, constrained, ◌>>=◌,
}
use bealhouse.Db.Accounts.{
  count_passkeys, delete_passkey, get_user_by_handle, list_passkeys, update_passkey_after_use,
  create_user, create_passkey,
}
use bealhouse.Db.Enrollments.{consume, claim_enrollment, create_ceremony, get_enrollment}
use bealhouse.Db.Devices.{
  get_live_session, touch_session, create_session, revoke_sessions_for_passkey, revoke_session,
  revoke_all_sessions_for_user, sweep_expired_auth,
}
use bealhouse.Admin.{
  Crypto, Webauthn, Request, Identity, hash_token, new_token, truncate, best_effort, or_denied,
  on_failure, load_account, session_ceiling,
}
use bealhouse.Admin.Devices.{
  SignedIn, open_session, authenticate, sign_out, resolved, may_revoke, remove_phone,
  revoke_passkey, sign_out_everywhere,
}
use bealhouse.Admin.Login.{
  consume_ceremony, store_ceremony, named, signed, answered, login_of, finish_login,
}
use bealhouse.Admin.Enroll.{
  begin_enrollment, challenge_for, enrolling_account, enrolling_account_from, enrolled_user,
  enrolled, registered_with, enrollment_of, finish_enrollment,
}
use bealhouse.Admin.Reach.{
  perform, here, acts, elsewhere, overlaps, answers, at_once, signs_in, visits,
  never_outlives_ceiling, never_locked_out,
}
use bealhouse.Admin.Race.{quiet, removal, both_are_lost}
use bealhouse.Admin.Out.{later, revoked_is_out, signed_out_is_out, everyone_is_out}
use bealhouse.Admin.Once.{login, register, finish, answered_once}
use bealhouse.Admin.Invited.{invitation_spent}
use bealhouse.Admin.Entered.{sign_in_lets_in}
use bealhouse.Admin.Second.{second_account}
use bealhouse.Admin.WayIn.{ways_in}
use bealhouse.Tests.Inn.{empty_inn, calm}

-- Bytes that are their own text and their own hash.
abbrev plain : Crypto
plain = record { sha256 = λ s. s; encode64 = λ s. s; decode64 = λ s. some s }

abbrev sure : Webauthn
sure = record {
  begin_registration = λ a. some (record { user_id = a.handle; challenge = a.handle });
  finish_registration =
      λ a c r. some (record { id = r.body; material = "m"; clone_warning = false });
  begin_login = some (record { user_id = ""; challenge = "c" });
  asserted = λ c r. some (r.body, "the handle of the owners");
  validate = λ a c r. some (record { id = r.body; material = "n"; clone_warning = false });
  encode_credential = λ c. c.material;
  decode_credential = λ s. some (record { id = s; material = s; clone_warning = false });
  encode_challenge = λ c. c.challenge;
  decode_challenge = λ s. some (record { user_id = s; challenge = s });
}

abbrev raw_token : String
raw_token = "0123456789abcdef0123456789abcdef"

abbrev ceremony_id : String
ceremony_id = "fedcba9876543210fedcba9876543210"

abbrev phone : String → UserPasskey
phone id = record {
  id = id;
  user_id = 1;
  label = "phone";
  credential = "m";
  created_at = 800;
  last_used_at = none;
}

abbrev open_session_row : UserSession
open_session_row = record {
  token_hash = raw_token;
  user_id = 1;
  passkey_id = some "p1";
  created_at = 900;
  last_seen_at = 900;
  expires_at = 5000;
  revoked_at = none;
  user_agent = "";
}

abbrev owners : User
owners = record {
  id = 1;
  handle = "the handle of the owners";
  name = "The Beal House";
  created_at = 700;
}

abbrev house : Accounts
house = record {
  users = owners ∷ [];
  passkeys = phone "p1" ∷ phone "p2" ∷ [];
  sessions = [];
  enrollments = [];
  ceremonies =
      record {
        id = ceremony_id;
        purpose = "login";
        session = "c";
        enrollment = none;
        created_at = 800;
        expires_at = 1100;
      }
      ∷ [];
  subscriptions = [];
}

abbrev two_phones : Store
two_phones = record empty_inn { accounts = house }

abbrev signed_in : Store
signed_in = record empty_inn { accounts = record house { sessions = open_session_row ∷ [] } }

abbrev answer : Request
answer = record { body = "p1"; user_agent = "a phone" }

abbrev let_in : SignedIn × Identity
let_in = (
  record { token = raw_token; expires_at = 31_537_000 },
  record { user_id = 1; name = "The Beal House"; passkey_id = some "p1" },
)

finished :
    (finish plain sure login raw_token 1000 ceremony_id answer (calm two_phones)).0 ≡ ok let_in
unfolding finish_login consume_ceremony consume login_of answered named get_user_by_handle
    load_account list_passkeys or_denied signed update_passkey_after_use open_session create_session
    new_token truncate pure raise raise_if statement query exec round_trip enclosed transaction
    constrained ◌>>=◌ count_chars
finished = refl

answered_once_example :
    succeeded
      (finish plain sure register raw_token 1010 ceremony_id answer (
        later
          (finish plain sure login raw_token 1000 ceremony_id answer (calm two_phones)).1.db
          1010
          [])).0
    ≡ false
answered_once_example =
    answered_once plain sure login raw_token 1000 ceremony_id answer (calm two_phones) let_in
      finished 1010 (omega arith) register raw_token 1010 answer []

sign_in_lets_in_example :
    (who : Identity) × ((authenticate plain 1010 raw_token (
        later
          (finish_login plain sure raw_token 1000 ceremony_id answer (calm two_phones)).1.db
          1010
          [])).0
      ≡ ok who)
    × (who.user_id ≡ 1)
    × (who.passkey_id ≡ some "p1")
unfolding trim_space
sign_in_lets_in_example =
    sign_in_lets_in plain sure raw_token 1000 ceremony_id answer (calm two_phones) let_in finished
      refl refl 1010 1010 (omega arith)

revoked : (revoke_passkey 1 "p1" (calm signed_in)).0 ≡ ok tt
unfolding revoke_passkey may_revoke remove_phone count_passkeys revoke_sessions_for_passkey
    delete_passkey raise_if statement query exec round_trip enclosed transaction pure ◌>>=◌
revoked = refl

revoked_is_out_example :
    succeeded
      (authenticate plain 1010 raw_token
        (later (revoke_passkey 1 "p1" (calm signed_in)).1.db 1010 [])).0
    ≡ false
unfolding hash_token
revoked_is_out_example =
    revoked_is_out plain 1 "p1" raw_token (calm signed_in) ((λ e. refl), tt) revoked 1010 1010 []

signed_out : (sign_out plain raw_token (calm signed_in)).0 ≡ ok tt
unfolding sign_out revoke_session statement pure ◌>>=◌
signed_out = refl

signed_out_is_out_example :
    succeeded
      (authenticate plain 1010 raw_token
        (later (sign_out plain raw_token (calm signed_in)).1.db 1010 [])).0
    ≡ false
signed_out_is_out_example =
    signed_out_is_out plain raw_token (calm signed_in) signed_out 1010 1010 []

all_out : (sign_out_everywhere 1 (calm signed_in)).0 ≡ ok tt
unfolding sign_out_everywhere revoke_all_sessions_for_user statement pure ◌>>=◌
all_out = refl

everyone_is_out_example :
    succeeded
      (authenticate plain 1010 raw_token
        (later (sign_out_everywhere 1 (calm signed_in)).1.db 1010 [])).0
    ≡ false
everyone_is_out_example =
    everyone_is_out plain 1 raw_token (calm signed_in) ((λ e. refl), tt) all_out 1010 1010 []

-- The owner signs in, comes back hours later, and again.
abbrev first_visit : Session
first_visit = perform plain sure (signs_in raw_token 1000 ceremony_id answer) (calm two_phones)

abbrev second_visit : Session
second_visit = perform plain sure (visits 9000 raw_token) (later first_visit.db 9000 [])

second_visit_open : length second_visit.db.accounts.sessions ≡ 1
unfolding perform finish_login consume_ceremony consume login_of answered named get_user_by_handle
    load_account list_passkeys or_denied signed update_passkey_after_use open_session create_session
    new_token truncate pure raise raise_if statement query exec round_trip enclosed transaction
    constrained ◌>>=◌ count_chars authenticate get_live_session resolved hash_token trim_space
    best_effort touch_session
second_visit_open = refl

never_outlives_ceiling_example :
    All (λ x. x.expires_at ≤ x.created_at + session_ceiling) second_visit.db.accounts.sessions
never_outlives_ceiling_example = never_outlives_ceiling plain sure refl (
    acts (visits 9000 raw_token) (later first_visit.db 9000 []) (
      elsewhere
        (record {
          users = refl;
          passkeys = refl;
          sessions = refl;
          enrollments = refl;
          ceremonies = refl;
        })
        (acts (signs_in raw_token 1000 ceremony_id answer) (calm two_phones) here)))

other_phone : (id : String) → str_eq "p1" id ≡ true → str_eq "p2" id ≡ false
other_phone id h = rw (sym ((eq_iff "p1" id).0 h)) refl

at_most_one :
    (a b : Bool)
    → (a ≡ true → b ≡ false)
    → (if a then suc (if b then 1 else 0) else (if b then 1 else 0)) ≤ 1
at_most_one true b h = ground (arith, h refl)
at_most_one false b h = ground arith

two_phones-IsSingle : IsSingle house.passkeys
two_phones-IsSingle id = at_most_one (str_eq "p1" id) (str_eq "p2" id) (other_phone id)

-- One phone is removed, and its owner comes by between the count and the removal.
abbrev between_visits : Session
between_visits = perform plain sure (visits 9000 raw_token) (calm two_phones)

one_may_go : (may_revoke 1 (calm two_phones)).0 ≡ ok tt
unfolding may_revoke count_passkeys raise_if statement query ◌>>=◌
one_may_go = refl

never_locked_out_example :
    1 ≤ ways_in 1 (transaction (remove_phone 1 "p1") between_visits).1.db.accounts.passkeys
never_locked_out_example = never_locked_out plain sure 1 two_phones-IsSingle (omega arith) (
    overlaps 1 "p1" (calm two_phones) between_visits here one_may_go
      (answers (visits 9000 raw_token) (calm two_phones) (λ other id e. absurd (cc)) at_once))

both_are_lost_example :
    ((may_revoke 1 (quiet two_phones)).0 ≡ ok tt)
    × ((removal 1 "p1" two_phones).0 ≡ ok tt)
    × ((removal 1 "p2" (removal 1 "p1" two_phones).1.db).0 ≡ ok tt)
    × (ways_in 1 (removal 1 "p2" (removal 1 "p1" two_phones).1.db).1.db.accounts.passkeys ≡ 0)
both_are_lost_example = both_are_lost 1 "p1" "p2" two_phones refl refl refl refl

abbrev invitation : UserEnrollment
invitation = record {
  token_hash = raw_token;
  label = "Ann's phone";
  user_id = none;
  created_at = 1000;
  expires_at = 1900;
  used_at = none;
}

abbrev invited : Store
invited = record empty_inn { accounts = record house { enrollments = invitation ∷ [] } }

abbrev new_handle : String
new_handle = "the handle of somebody new"

abbrev new_phone : Request
new_phone = record { body = "p3"; user_agent = "" }

abbrev new_raw : String
new_raw = "00000000000000000000000000000000"

abbrev second_id : String
second_id = "11111111111111111111111111111111"

begun :
    (begin_enrollment plain sure new_handle second_id raw_token (calm invited)).0
    ≡ ok (record { user_id = new_handle; challenge = new_handle }, second_id)
unfolding begin_enrollment best_effort sweep_expired_auth claim_enrollment on_failure challenge_for
    enrolling_account store_ceremony create_ceremony hash_token raise_if statement exec constrained
    pure ◌>>=◌ trim_space count_chars
begun = refl

abbrev enrolled_out : SignedIn × Identity
enrolled_out = (
  record { token = new_raw; expires_at = 31_537_000 },
  record { user_id = 5; name = "The Beal House"; passkey_id = some "p3" },
)

enrolled_then :
    (finish_enrollment plain sure new_raw 1000 second_id new_phone (
      later
        (begin_enrollment plain sure new_handle second_id raw_token (calm invited)).1.db
        1000
        [])).0
    ≡ ok enrolled_out
unfolding begin_enrollment best_effort sweep_expired_auth claim_enrollment on_failure challenge_for
    enrolling_account store_ceremony create_ceremony hash_token finish_enrollment consume_ceremony
    consume enrollment_of get_enrollment or_denied registered_with enrolling_account_from
    get_user_by_handle enrolled enrolled_user create_user create_passkey open_session create_session
    new_token truncate raise raise_if query round_trip enclosed transaction statement exec
    constrained pure ◌>>=◌ trim_space count_chars
enrolled_then = refl

invitation_spent_example :
    succeeded
      (begin_enrollment plain sure new_handle ceremony_id raw_token (
        later
          (finish_enrollment plain sure new_raw 1000 second_id new_phone (
            later
              (begin_enrollment plain sure new_handle second_id raw_token (calm invited)).1.db
              1000
              [])).1.db
          1010
          [])).0
    ≡ false
invitation_spent_example =
    invitation_spent plain sure new_handle second_id raw_token (calm invited)
      (record { user_id = new_handle; challenge = new_handle }, second_id) begun new_raw 1000
      new_phone 1000 [] enrolled_out enrolled_then new_handle ceremony_id 1010 [] (omega arith)

enrolled_second :
    (registered_with plain sure new_raw 1000 invitation new_phone
      (record { user_id = new_handle; challenge = new_handle })
      (calm invited)).0
    ≡ ok enrolled_out
unfolding registered_with enrolling_account_from get_user_by_handle enrolled enrolled_user
    create_user create_passkey open_session create_session new_token truncate raise raise_if query
    round_trip enclosed transaction statement exec constrained pure ◌>>=◌ count_chars
enrolled_second = refl

second_account_example :
    length
      (registered_with plain sure new_raw 1000 invitation new_phone
        (record { user_id = new_handle; challenge = new_handle })
        (calm invited)).1.db.accounts.users
    ≡ 2
second_account_example =
    second_account plain sure new_raw 1000 invitation new_phone
      (record { user_id = new_handle; challenge = new_handle }) (calm invited) enrolled_out refl
      refl enrolled_second
