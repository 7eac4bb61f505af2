-- ===== src/Db/Devices.antt =====
-- The statements of internal/db/gen/admin.sql.go on sessions, and the sweep of what has expired.
use Prim.Native.String.{String}
use text.Mathlib.Text.{◌==◌ as str_eq}
use bealhouse.Prelude.{
  ℕ, ◌+◌, min, Bool, not, ◌&&◌, List, [], ◌∷◌, ◌++◌, Option, none, some, any, keep, first, amend,
  count, ltb, leb, ◌==◌, if◌then◌else◌,
}
use bealhouse.Db.Schema.{
  Instant, User, UserPasskey, UserSession, UserEnrollment, WebauthnCeremony, Store,
}
use bealhouse.Db.Session.{
  Action, Outcome, ok, Error, constrained, unique_violation, check_violation, foreign_key_violation,
  statement, query, exec,
}
use bealhouse.Db.Accounts.{octets, same_bytes, is_user, is_passkey}
use bealhouse.Db.Enrollments.{is_unspent}

abbrev pub put_sessions : List UserSession → Store → Store
put_sessions ss d = record d { accounts = record d.accounts { sessions = ss } }

pub record CreateSessionParams : Type 0 where
  pub token_hash : String
  pub user_id : ℕ
  pub passkey_id : String
  pub lifetime_seconds : ℕ
  pub user_agent : String

abbrev pub session_of : CreateSessionParams → Instant → UserSession
session_of arg now = record {
  token_hash = arg.token_hash;
  user_id = arg.user_id;
  passkey_id = some arg.passkey_id;
  created_at = now;
  last_seen_at = now;
  expires_at = now + arg.lifetime_seconds;
  revoked_at = none;
  user_agent = arg.user_agent;
}

abbrev pub session_constraints : CreateSessionParams → Store → List (Bool × Error)
session_constraints arg d =
    (not (octets arg.token_hash == 32), check_violation)
    ∷ (any (λ x. str_eq x.token_hash arg.token_hash) d.accounts.sessions, unique_violation)
    ∷ (not (is_user arg.user_id d), foreign_key_violation)
    ∷ (not (is_passkey arg.passkey_id d), foreign_key_violation)
    ∷ []

abbrev pub insert_session : CreateSessionParams → Store → Outcome (Unit {0}) × Store
insert_session arg d =
    constrained (session_constraints arg d) d
      (ok tt, put_sessions (d.accounts.sessions ++ (session_of arg d.now ∷ [])) d)

-- `CreateSession`
unfoldable pub create_session : CreateSessionParams → Action (Unit {0})
create_session arg = statement (insert_session arg)

-- `revoked_at IS NULL AND expires_at > now()`
abbrev pub is_live : Instant → UserSession → Bool
is_live now x = is_unspent x.revoked_at && ltb now x.expires_at

abbrev pub has_token : String → UserSession → Bool
has_token token_hash x = str_eq x.token_hash token_hash

-- GetLiveSessionRow
pub record LiveSession : Type 0 where
  pub session : UserSession
  pub user : User

abbrev pub join_user : List User → Option UserSession → Option LiveSession
join_user us none = none
join_user us (some x) = elim (first (λ u. u.id == x.user_id) us) [
  | none ↦ none
  | some u ↦ some (record { session = x; user = u })
]

abbrev pub live_session : String → Store → Option LiveSession
live_session token_hash d =
    join_user d.accounts.users
      (first (λ x. has_token token_hash x && is_live d.now x) d.accounts.sessions)

-- `GetLiveSession`
unfoldable pub get_live_session : String → Action (Option LiveSession)
get_live_session token_hash = query (live_session token_hash)

abbrev pub touched : ℕ → ℕ → Instant → UserSession → UserSession
touched lifetime ceiling now x = record x {
  last_seen_at = now;
  expires_at = min (now + lifetime) (x.created_at + ceiling);
}

-- `TouchSession`
unfoldable pub touch_session : String → ℕ → ℕ → Action (Unit {0})
touch_session token_hash lifetime ceiling = exec (λ d.
    put_sessions
      (amend (λ x. has_token token_hash x && is_live d.now x) (touched lifetime ceiling d.now)
        d.accounts.sessions)
      d)

abbrev pub revoked : Instant → UserSession → UserSession
revoked now x = record x { revoked_at = some now }

-- `UPDATE user_sessions SET revoked_at = now() WHERE … AND revoked_at IS NULL`, with the number of
-- rows updated.
abbrev pub revoke_where : (UserSession → Bool) → Store → Outcome ℕ × Store
revoke_where test d =
    let hit = λ (x : UserSession). test x && is_unspent x.revoked_at in
    (
      ok (count hit d.accounts.sessions),
      put_sessions (amend hit (revoked d.now) d.accounts.sessions) d,
    )

-- `RevokeSession`
unfoldable pub revoke_session : String → Action ℕ
revoke_session token_hash = statement (revoke_where (has_token token_hash))

abbrev pub is_from : String → ℕ → UserSession → Bool
is_from passkey_id user_id x = same_bytes passkey_id x.passkey_id && (x.user_id == user_id)

-- `RevokeSessionsForPasskey`
unfoldable pub revoke_sessions_for_passkey : String → ℕ → Action ℕ
revoke_sessions_for_passkey passkey_id user_id =
    statement (revoke_where (is_from passkey_id user_id))

-- `RevokeAllSessionsForUser`
unfoldable pub revoke_all_sessions_for_user : ℕ → Action ℕ
revoke_all_sessions_for_user user_id = statement (revoke_where (λ x. x.user_id == user_id))

-- ListLiveSessionsRow: the label of the passkey, if it is still there.
pub record DeviceRow : Type 0 where
  pub session : UserSession
  pub label : Option String

abbrev pub label_of : List UserPasskey → UserSession → Option String
label_of ps x = elim (first (λ p. same_bytes p.id x.passkey_id) ps) [
  | none ↦ none
  | some p ↦ some p.label
]

-- ORDER BY last_seen_at DESC
abbrev pub by_last_seen : DeviceRow → List DeviceRow → List DeviceRow
by_last_seen r [] = r ∷ []
by_last_seen r (q ∷ rest) =
    let later = by_last_seen r rest in
    if leb q.session.last_seen_at r.session.last_seen_at then r ∷ q ∷ rest else q ∷ later

abbrev pub device_rows : ℕ → Instant → List UserPasskey → List UserSession → List DeviceRow
device_rows user_id now ps [] = []
device_rows user_id now ps (x ∷ xs) =
    let rest = device_rows user_id now ps xs in
    if (x.user_id == user_id) && is_live now x
    then by_last_seen (record { session = x; label = label_of ps x }) rest
    else rest

-- `ListLiveSessions`
unfoldable pub list_live_sessions : ℕ → Action (List DeviceRow)
list_live_sessions user_id =
    query (λ d. device_rows user_id d.now d.accounts.passkeys d.accounts.sessions)

-- 30 days
abbrev pub dead_for : ℕ
dead_for = 2_592_000

abbrev pub is_lapsed : Instant → UserEnrollment → Bool
is_lapsed now e = ltb e.expires_at now && is_unspent e.used_at

-- ON DELETE CASCADE, of a ceremony's enrollment.
abbrev pub is_orphan : Instant → List UserEnrollment → WebauthnCeremony → Bool
is_orphan now es c = any (λ e. is_lapsed now e && same_bytes e.token_hash c.enrollment) es

abbrev pub swept : Store → Store
swept d = record d {
  accounts = record d.accounts {
    ceremonies =
        keep (λ c. not (ltb c.expires_at d.now) && not (is_orphan d.now d.accounts.enrollments c))
          d.accounts.ceremonies;
    enrollments = keep (λ e. not (is_lapsed d.now e)) d.accounts.enrollments;
    sessions = keep (λ x. not (ltb (x.expires_at + dead_for) d.now)) d.accounts.sessions;
  };
}

-- `SweepExpiredAuth`
unfoldable pub sweep_expired_auth : Action (Unit {0})
sweep_expired_auth = exec swept
