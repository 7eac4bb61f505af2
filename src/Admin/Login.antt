-- ===== src/Admin/Login.antt =====
-- Ceremonies and signing in: internal/admin/login.go.
use Prim.Native.String.{String}
use text.Mathlib.Text.{◌==◌ as str_eq}
use bealhouse.Prelude.{not, Option, none, some}
use bealhouse.Db.Schema.{Instant, WebauthnCeremony}
use bealhouse.Db.Session.{
  Action, pure, raise, raise_if, transaction, ◌>>=◌, ◌>>◌, denied, webauthn_failed, undecodable,
}
use bealhouse.Db.Accounts.{get_user_by_handle, update_passkey_after_use}
use bealhouse.Db.Enrollments.{create_ceremony, consume}
use bealhouse.Db.Devices.{sweep_expired_auth}
use bealhouse.Admin.{
  Crypto, Webauthn, Challenge, Credential, Request, Account, Identity, best_effort, or_denied,
  or_else, load_account, ceremony_lifetime,
}
use bealhouse.Admin.Devices.{SignedIn, open_session}

-- `consumeCeremony`
unfoldable pub consume_ceremony : String → String → Action WebauthnCeremony
consume_ceremony id purpose = do
  raise_if (str_eq id "") denied
  found ← consume id
  or_else found (raise denied)
      (λ cer. do raise_if (not (str_eq cer.purpose purpose)) denied; pure cer)

module _ (w : Webauthn) where
  -- `storeCeremony`, with its random id.
  unfoldable pub store_ceremony : String → Challenge → Option String → String → Action String
  store_ceremony purpose session enrollment id = do
    create_ceremony (record {
      id = id;
      purpose = purpose;
      session = w.encode_challenge session;
      enrollment = enrollment;
      lifetime_seconds = ceremony_lifetime;
    })
    pure id

  -- `BeginLogin`
  unfoldable pub begin_login : String → Action (Challenge × String)
  begin_login id = do
    best_effort sweep_expired_auth
    or_else w.begin_login (raise webauthn_failed)
        (λ session. do store_ceremony "login" session none id; pure (session, id))

  -- The lookup of `FinishLogin`: the account that a handle names.
  unfoldable pub named : String → Action Account
  named handle = do found ← get_user_by_handle handle; or_else found (raise denied) (load_account w)

module _ (c : Crypto) (w : Webauthn) where
  -- What follows a signature that holds.
  unfoldable pub signed :
      String → Instant → Account → Credential → Request → Action (SignedIn × Identity)
  signed raw clock acct credential r = transaction (do
    update_passkey_after_use credential.id (w.encode_credential credential)
    out ← open_session c raw clock acct.id credential.id r.user_agent
    pure (out, record { user_id = acct.id; name = acct.name; passkey_id = some credential.id }))

  -- `FinishPasskeyLogin`, and what follows it.
  unfoldable pub answered : String → Instant → Challenge → Request → Action (SignedIn × Identity)
  answered raw clock session r = or_else (w.asserted session r) (raise denied) (λ said. do
    acct ← or_denied (named w said.1)
    or_else (w.validate acct session r) (raise denied)
        (λ credential. signed raw clock acct credential r))

  -- What follows the challenge that `FinishLogin` takes.
  unfoldable pub login_of :
      String → Instant → Request → WebauthnCeremony → Action (SignedIn × Identity)
  login_of raw clock r cer =
      or_else (w.decode_challenge cer.session) (raise undecodable)
        (λ session. answered raw clock session r)

  -- `FinishLogin`
  unfoldable pub finish_login : String → Instant → String → Request → Action (SignedIn × Identity)
  finish_login raw clock id r = do cer ← consume_ceremony id "login"; login_of raw clock r cer
