-- ===== src/Admin/Enroll.antt =====
-- Invitations for a phone: internal/admin/enroll.go.
use Prim.Native.String.{◌++◌, String}
use text.Mathlib.Text.{◌==◌ as str_eq}
use bealhouse.Prelude.{ℕ, ◌+◌, [], Option, none, some, ◌==◌, if◌then◌else◌}
use bealhouse.Prelude.Text.{trim_slashes}
use bealhouse.Db.Schema.{Instant, User, UserEnrollment, WebauthnCeremony}
use bealhouse.Db.Session.{
  Action, pure, raise, raise_if, transaction, ◌>>=◌, ◌>>◌, denied, webauthn_failed, undecodable,
  no_rows,
}
use bealhouse.Db.Accounts.{
  get_first_user, get_user, get_user_by_handle, create_user, create_passkey,
}
use bealhouse.Db.Enrollments.{
  create_enrollment, claim_enrollment, release_enrollment, get_enrollment,
}
use bealhouse.Db.Devices.{sweep_expired_auth}
use bealhouse.Admin.{
  Crypto, Webauthn, Challenge, Credential, Request, Account, Identity, new_token, hash_token,
  best_effort, or_denied, or_else, on_failure, load_account, enrollment_lifetime,
}
use bealhouse.Admin.Devices.{SignedIn, open_session}
use bealhouse.Admin.Login.{consume_ceremony, store_ceremony}

pub record Enrollment : Type 0 where
  pub token : String
  pub label : String
  pub expires_at : Instant

abbrev pub user_id_of : Option User → Option ℕ
user_id_of none = none
user_id_of (some u) = some u.id

abbrev pub inn_name : String
inn_name = "The Beal House"

module _ (c : Crypto) where
  -- `MintEnrollment`, with the random bytes of the token and Go's clock.
  unfoldable pub mint_enrollment : String → Instant → String → Action Enrollment
  mint_enrollment raw clock asked = do
    let label = if str_eq asked "" then "New phone" else asked
    found ← get_first_user
    create_enrollment (record {
      token_hash = (new_token c raw).1;
      label = label;
      user_id = user_id_of found;
      lifetime_seconds = enrollment_lifetime;
    })
    pure (record {
      token = (new_token c raw).0;
      label = label;
      expires_at = clock + enrollment_lifetime;
    })

-- `EnrollURL`: the token is in the fragment.
unfoldable pub enroll_url : String → String → String
enroll_url site_url token = trim_slashes site_url ++ ("/admin/enroll#" ++ token)

module _ (w : Webauthn) where
  -- `GetUser` of an id that is there by the foreign key, and its account.
  unfoldable pub joined : ℕ → Action Account
  joined id = do found ← get_user id; or_else found (raise no_rows) (load_account w)

  -- `enrollingAccount`, with the 64 random bytes of a new handle.
  unfoldable pub enrolling_account : String → UserEnrollment → Action Account
  enrolling_account handle e =
      or_else e.user_id (pure (record { id = 0; handle = handle; name = inn_name; creds = [] }))
        joined

  -- `enrollingAccountFrom`: the handle is that of the stored challenge.
  unfoldable pub enrolling_account_from : UserEnrollment → String → Action Account
  enrolling_account_from e handle =
      or_else e.user_id
        (do
          found ← get_user_by_handle handle
          or_else found (pure (record { id = 0; handle = handle; name = inn_name; creds = [] }))
              (load_account w))
        joined

  -- What follows the claim of an invitation.
  unfoldable pub challenge_for : String → String → UserEnrollment → Action (Challenge × String)
  challenge_for handle id e = do
    acct ← enrolling_account handle e
    or_else (w.begin_registration acct) (raise webauthn_failed) (λ session. do
      store_ceremony w "register" session (some e.token_hash) id
      pure (session, id))

module _ (c : Crypto) (w : Webauthn) where
  -- `BeginEnrollment`: the claim comes first, and a failure after it releases the invitation.
  unfoldable pub begin_enrollment : String → String → String → Action (Challenge × String)
  begin_enrollment handle id token = do
    best_effort sweep_expired_auth
    raise_if (str_eq token "") denied
    claimed ← claim_enrollment (hash_token c token)
    or_else claimed (raise denied)
        (λ e. on_failure (challenge_for w handle id e) (release_enrollment e.token_hash))

  -- The account of a new phone, created if it is not there.
  unfoldable pub enrolled_user : Account → Action ℕ
  enrolled_user acct =
      if acct.id == 0
      then (do
        created ← create_user (record { handle = acct.handle; name = acct.name })
        pure created.id)
      else pure acct.id

  -- The transaction of `FinishEnrollment`.
  unfoldable pub enrolled :
      String
      → Instant
      → UserEnrollment
      → Account
      → Credential
      → Request
      → Action (SignedIn × Identity)
  enrolled raw clock enrollment acct credential r = transaction (do
    user_id ← enrolled_user acct
    create_passkey (record {
      id = credential.id;
      user_id = user_id;
      label = enrollment.label;
      credential = w.encode_credential credential;
    })
    out ← open_session c raw clock user_id credential.id r.user_agent
    pure (out, record { user_id = user_id; name = acct.name; passkey_id = some credential.id }))

  -- What follows the challenge of a registration.
  unfoldable pub registered_with :
      String → Instant → UserEnrollment → Request → Challenge → Action (SignedIn × Identity)
  registered_with raw clock enrollment r session = do
    acct ← enrolling_account_from w enrollment session.user_id
    or_else (w.finish_registration acct session r)
        (do best_effort (release_enrollment enrollment.token_hash); raise denied)
        (λ credential. enrolled raw clock enrollment acct credential r)

  -- What follows the challenge that `FinishEnrollment` takes.
  unfoldable pub enrollment_of :
      String → Instant → Request → WebauthnCeremony → Action (SignedIn × Identity)
  enrollment_of raw clock r cer = do
    found ← or_denied (get_enrollment cer.enrollment)
    or_else found (raise denied) (λ enrollment.
        or_else (w.decode_challenge cer.session) (raise undecodable)
          (registered_with raw clock enrollment r))

  -- `FinishEnrollment`
  unfoldable pub finish_enrollment :
      String → Instant → String → Request → Action (SignedIn × Identity)
  finish_enrollment raw clock id r = do
    cer ← consume_ceremony id "register"
    enrollment_of raw clock r cer
