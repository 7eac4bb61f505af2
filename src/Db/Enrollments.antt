-- ===== src/Db/Enrollments.antt =====
-- The statements of internal/db/gen/admin.sql.go on enrollments and ceremonies, with the constraints
-- of internal/db/migrations/00013_admin_auth.sql.
use Prim.Native.String.{String}
use text.Mathlib.Text.{◌==◌ as str_eq}
use bealhouse.Prelude.{
  ℕ, ◌+◌, Bool, true, false, not, ◌&&◌, List, [], ◌∷◌, ◌++◌, Option, none, some, any, keep, first,
  amend, ltb, ◌==◌,
}
use bealhouse.Db.Schema.{Instant, UserEnrollment, WebauthnCeremony, Store}
use bealhouse.Db.Session.{
  Action, Outcome, ok, Error, constrained, unique_violation, check_violation, foreign_key_violation,
  statement, query, exec,
}
use bealhouse.Db.Accounts.{
  octets, is_present, same_bytes, is_account, put_enrollments, put_ceremonies,
}

pub record CreateEnrollmentParams : Type 0 where
  pub token_hash : String
  pub label : String
  pub user_id : Option ℕ
  pub lifetime_seconds : ℕ

abbrev pub enrollment_constraints : CreateEnrollmentParams → Store → List (Bool × Error)
enrollment_constraints arg d =
    (not ((octets arg.token_hash == 32) && is_present arg.label), check_violation)
    ∷ (any (λ f. str_eq f.token_hash arg.token_hash) d.accounts.enrollments, unique_violation)
    ∷ (not (is_account arg.user_id d), foreign_key_violation)
    ∷ []

abbrev pub new_enrollment : CreateEnrollmentParams → Instant → UserEnrollment
new_enrollment arg now = record {
  token_hash = arg.token_hash;
  label = arg.label;
  user_id = arg.user_id;
  created_at = now;
  expires_at = now + arg.lifetime_seconds;
  used_at = none;
}

abbrev pub insert_enrollment : CreateEnrollmentParams → Store → Outcome (Unit {0}) × Store
insert_enrollment arg d =
    constrained (enrollment_constraints arg d) d
      (ok tt, put_enrollments (d.accounts.enrollments ++ (new_enrollment arg d.now ∷ [])) d)

-- `CreateEnrollment`
unfoldable pub create_enrollment : CreateEnrollmentParams → Action (Unit {0})
create_enrollment arg = statement (insert_enrollment arg)

abbrev pub is_unspent : Option Instant → Bool
is_unspent none = true
is_unspent (some t) = false

abbrev pub is_claimable : String → Instant → UserEnrollment → Bool
is_claimable token_hash now e =
    str_eq e.token_hash token_hash && is_unspent e.used_at && ltb now e.expires_at

abbrev pub claim_row : String → Store → Outcome (Option UserEnrollment) × Store
claim_row token_hash d =
    let spend = λ (e : UserEnrollment). record e { used_at = some d.now } in
    elim (first (is_claimable token_hash d.now) d.accounts.enrollments) [
      | none ↦ (ok none, d)
      | some e ↦ (
        ok (some (spend e)),
        put_enrollments (amend (is_claimable token_hash d.now) spend d.accounts.enrollments) d,
      )
    ]

-- `ClaimEnrollment`
unfoldable pub claim_enrollment : String → Action (Option UserEnrollment)
claim_enrollment token_hash = statement (claim_row token_hash)

-- `ReleaseEnrollment`
unfoldable pub release_enrollment : String → Action (Unit {0})
release_enrollment token_hash = exec (λ d.
    put_enrollments
      (amend (λ e. str_eq e.token_hash token_hash) (λ e. record e { used_at = none })
        d.accounts.enrollments)
      d)

-- `GetEnrollment`; NULL is no token.
unfoldable pub get_enrollment : Option String → Action (Option UserEnrollment)
get_enrollment token_hash =
    query (λ d. first (λ e. same_bytes e.token_hash token_hash) d.accounts.enrollments)

-- Ceremonies

pub record CreateCeremonyParams : Type 0 where
  pub id : String
  pub purpose : String
  pub session : String
  pub enrollment : Option String
  pub lifetime_seconds : ℕ

-- `purpose IN ('register', 'login')` and `(purpose = 'register') = (enrollment IS NOT NULL)`
abbrev pub is_authorised : String → Option String → Bool
is_authorised purpose none = str_eq purpose "login"
is_authorised purpose (some e) = str_eq purpose "register"

abbrev pub is_invitation : Option String → Store → Bool
is_invitation none d = true
is_invitation (some h) d = any (λ e. str_eq e.token_hash h) d.accounts.enrollments

abbrev pub ceremony_constraints : CreateCeremonyParams → Store → List (Bool × Error)
ceremony_constraints arg d =
    (not ((octets arg.id == 32) && is_authorised arg.purpose arg.enrollment), check_violation)
    ∷ (any (λ k. str_eq k.id arg.id) d.accounts.ceremonies, unique_violation)
    ∷ (not (is_invitation arg.enrollment d), foreign_key_violation)
    ∷ []

abbrev pub new_ceremony : CreateCeremonyParams → Instant → WebauthnCeremony
new_ceremony arg now = record {
  id = arg.id;
  purpose = arg.purpose;
  session = arg.session;
  enrollment = arg.enrollment;
  created_at = now;
  expires_at = now + arg.lifetime_seconds;
}

abbrev pub insert_ceremony : CreateCeremonyParams → Store → Outcome (Unit {0}) × Store
insert_ceremony arg d =
    constrained (ceremony_constraints arg d) d
      (ok tt, put_ceremonies (d.accounts.ceremonies ++ (new_ceremony arg d.now ∷ [])) d)

-- `CreateCeremony`
unfoldable pub create_ceremony : CreateCeremonyParams → Action (Unit {0})
create_ceremony arg = statement (insert_ceremony arg)

abbrev pub is_answerable : String → Instant → WebauthnCeremony → Bool
is_answerable id now c = str_eq c.id id && ltb now c.expires_at

abbrev pub take_ceremony : String → Store → Outcome (Option WebauthnCeremony) × Store
take_ceremony id d = (
  ok (first (is_answerable id d.now) d.accounts.ceremonies),
  put_ceremonies (keep (λ c. not (is_answerable id d.now c)) d.accounts.ceremonies) d,
)

-- `ConsumeCeremony`
unfoldable pub consume : String → Action (Option WebauthnCeremony)
consume id = statement (take_ceremony id)
