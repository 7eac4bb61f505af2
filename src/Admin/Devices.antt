-- ===== src/Admin/Devices.antt =====
-- Sessions and passkeys: internal/admin/session.go.

use Prim.Native.String.{String}
use text.Mathlib.Text.{◌==◌ as str_eq}
use bealhouse.Prelude.{
  ℕ, ◌+◌, ◌-◌, Bool, List, Option, none, some, map, ltb, leb, ◌==◌, if◌then◌else◌,
}
use bealhouse.Db.Schema.{Instant, UserPasskey}
use bealhouse.Db.Session.{
  Action, pure, raise, raise_if, transaction, ◌>>=◌, ◌>>◌, denied, last_passkey,
}
use bealhouse.Db.Accounts.{count_passkeys, delete_passkey, list_passkeys}
use bealhouse.Db.Devices.{
  create_session, LiveSession, get_live_session, touch_session, revoke_session, DeviceRow,
  list_live_sessions, revoke_sessions_for_passkey, revoke_all_sessions_for_user,
}
use bealhouse.Admin.{
  Crypto, new_token, hash_token, truncate, Identity, best_effort, session_lifetime, session_ceiling,
  touch_interval, user_agent_limit,
}

-- `Session`: the token that the cookie carries.
pub record SignedIn : Type 0 where
  pub token : String
  pub expires_at : Instant

module _ (c : Crypto) where
  -- `openSession`, with the random bytes of the token and Go's clock.
  unfoldable pub open_session : String → Instant → ℕ → String → String → Action SignedIn
  open_session raw clock user_id passkey_id user_agent = do
    create_session (record {
      token_hash = (new_token c raw).1;
      user_id = user_id;
      passkey_id = passkey_id;
      lifetime_seconds = session_lifetime;
      user_agent = truncate user_agent user_agent_limit;
    })
    pure (record { token = (new_token c raw).0; expires_at = clock + session_lifetime })

  -- A live session, whose expiry is pushed forward at most once an hour.
  unfoldable pub resolved : Instant → String → Option LiveSession → Action Identity
  resolved clock hash none = raise denied
  resolved clock hash (some row) = do
    if ltb touch_interval (clock - row.session.last_seen_at)
        then best_effort (touch_session hash session_lifetime session_ceiling)
        else pure tt
    pure (record {
      user_id = row.session.user_id;
      name = row.user.name;
      passkey_id = row.session.passkey_id;
    })

  -- `Authenticate`
  unfoldable pub authenticate : Instant → String → Action Identity
  authenticate clock token = do
    raise_if (str_eq token "") denied
    row ← get_live_session (hash_token c token)
    resolved clock (hash_token c token) row

  -- `SignOut`
  unfoldable pub sign_out : String → Action (Unit {0})
  sign_out token =
      if str_eq token "" then pure tt else (do revoke_session (hash_token c token); pure tt)

  -- `credentialID`
  unfoldable pub credential_id : Option String → String
  credential_id none = ""
  credential_id (some id) = if str_eq id "" then "" else c.encode64 id

  pub record Device : Type 0 where
    pub passkey_id : String
    pub label : String
    pub user_agent : String
    pub signed_in_at : Instant
    pub last_seen_at : Instant
    pub current : Bool

  abbrev pub label_or : Option String → String
  label_or none = "Revoked passkey"
  label_or (some label) = label

  unfoldable pub device : String → DeviceRow → Device
  device current row = record {
    passkey_id = credential_id row.session.passkey_id;
    label = label_or row.label;
    user_agent = row.session.user_agent;
    signed_in_at = row.session.created_at;
    last_seen_at = row.session.last_seen_at;
    current = str_eq row.session.token_hash current;
  }

  -- `Devices`
  unfoldable pub devices : ℕ → String → Action (List Device)
  devices user_id current_token = do
    rows ← list_live_sessions user_id
    pure (map (device (hash_token c current_token)) rows)

  pub record Passkey : Type 0 where
    pub id : String
    pub label : String
    pub created_at : Instant
    pub last_used_at : Option Instant

  unfoldable pub passkey : UserPasskey → Passkey
  passkey p = record {
    id = credential_id (some p.id);
    label = p.label;
    created_at = p.created_at;
    last_used_at = p.last_used_at;
  }

  -- `Passkeys`
  unfoldable pub passkeys : ℕ → Action (List Passkey)
  passkeys user_id = do rows ← list_passkeys user_id; pure (map passkey rows)

-- What `RevokePasskey` asks before anything else; the count locks no row.
unfoldable pub may_revoke : ℕ → Action (Unit {0})
may_revoke user_id = do remaining ← count_passkeys user_id; raise_if (leb remaining 1) last_passkey

-- What it does then: the sessions first, then the key.
unfoldable pub remove_phone : ℕ → String → Action (Unit {0})
remove_phone user_id passkey_id = do
  revoke_sessions_for_passkey passkey_id user_id
  removed ← delete_passkey passkey_id user_id
  raise_if (removed == 0) denied

-- `RevokePasskey`
unfoldable pub revoke_passkey : ℕ → String → Action (Unit {0})
revoke_passkey user_id passkey_id =
    transaction (do may_revoke user_id; remove_phone user_id passkey_id)

-- `SignOutEverywhere`
unfoldable pub sign_out_everywhere : ℕ → Action (Unit {0})
sign_out_everywhere user_id = do revoke_all_sessions_for_user user_id; pure tt
