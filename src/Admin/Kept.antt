-- ===== src/Admin/Kept.antt =====
-- The second halves of the ceremonies of internal/admin keep what their statements keep.
use Prim.Native.String.{String}
use bealhouse.Prelude.{ℕ, ◌≡◌, refl, Option, none, some}
use bealhouse.Db.Schema.{Store, Instant, User, UserEnrollment, WebauthnCeremony}
use bealhouse.Db.Session.{Action, Outcome, ok, err, Session}
use bealhouse.Db.Keeps.{
  Keeps, Keeps-bind, Keeps-pure, Keeps-raise, Keeps-raise_if, Keeps-if, Keeps-transaction,
  Keeps-query,
}
use bealhouse.Db.Accounts.{
  CreateUserParams, create_user, get_user, get_user_by_handle, CreatePasskeyParams, create_passkey,
  list_passkeys, update_passkey_after_use,
}
use bealhouse.Db.Enrollments.{
  CreateEnrollmentParams, create_enrollment, claim_enrollment, release_enrollment, get_enrollment,
  CreateCeremonyParams, create_ceremony, consume,
}
use bealhouse.Db.Devices.{
  CreateSessionParams, create_session, touch_session, revoke_session, revoke_all_sessions_for_user,
  sweep_expired_auth,
}
use bealhouse.Admin.{
  Crypto, Webauthn, Challenge, Credential, Request, Account, best_effort, or_denied, on_failure,
  or_else, session_lifetime, session_ceiling, decode_all, load_account,
}
use bealhouse.Admin.Devices.{open_session}
use bealhouse.Admin.Login.{consume_ceremony, named, signed, answered, login_of, finish_login}
use bealhouse.Admin.Enroll.{
  joined, enrolling_account, enrolling_account_from, enrolled_user, enrolled, registered_with,
  enrollment_of, finish_enrollment,
}

-- The statements that write an enrolled phone.
pub record IsEnrolled (P : Store → Type 0) : Type 0 where
  pub makes : (arg : CreateUserParams) → Keeps P (create_user arg)
  pub enrols : (arg : CreatePasskeyParams) → Keeps P (create_passkey arg)
  pub opens :
      (arg : CreateSessionParams)
      → arg.lifetime_seconds ≡ session_lifetime
      → Keeps P (create_session arg)

-- The statements of the second halves of the two ceremonies.
pub record IsFinished (P : Store → Type 0) : Type 0 where
  pub writes : IsEnrolled P
  pub uses : (id credential : String) → Keeps P (update_passkey_after_use id credential)
  pub releases : (hash : String) → Keeps P (release_enrollment hash)
  pub consumes : (id : String) → Keeps P (consume id)

-- The others that write, but for the one that deletes a passkey.
pub record IsKept (P : Store → Type 0) : Type 0 where
  pub finished : IsFinished P
  pub invites : (arg : CreateEnrollmentParams) → Keeps P (create_enrollment arg)
  pub claims : (hash : String) → Keeps P (claim_enrollment hash)
  pub challenges : (arg : CreateCeremonyParams) → Keeps P (create_ceremony arg)
  pub touches : (hash : String) → Keeps P (touch_session hash session_lifetime session_ceiling)
  pub revokes : (hash : String) → Keeps P (revoke_session hash)
  pub revokes_all : (id : ℕ) → Keeps P (revoke_all_sessions_for_user id)
  pub sweeps : Keeps P sweep_expired_auth

module _ {P : Store → Type 0} where
  pub best_effort-Keeps : (m : Action (Unit {0})) → Keeps P m → Keeps P (best_effort m)
  unfolding best_effort
  best_effort-Keeps m km = record { at = λ s h. km.at s h }

  pub or_denied-Keeps : {A : Type 0} (m : Action A) → Keeps P m → Keeps P (or_denied m)
  unfolding or_denied
  or_denied-Keeps {A} m km = record { at = λ s h. go (m s).0 (m s).1 (km.at s h) }
    where
      go : (r : Outcome A) (t : Session) → P t.db → P (or_denied (λ u. (r, t)) t).1.db
      go (ok a) t h = h
      go (err e) t h = h

  pub on_failure-Keeps :
      {A : Type 0} (m : Action A) (cleanup : Action (Unit {0}))
      → Keeps P m
      → Keeps P cleanup
      → Keeps P (on_failure m cleanup)
  unfolding on_failure
  on_failure-Keeps {A} m cleanup km kc = record { at = λ s h. go (m s).0 (m s).1 (km.at s h) }
    where
      go : (r : Outcome A) (t : Session) → P t.db → P (on_failure (λ u. (r, t)) cleanup t).1.db
      go (ok a) t h = h
      go (err e) t h = kc.at t h

  pub or_else-Keeps :
      {A B : Type 0} (o : Option A) (other : Action B) (f : A → Action B)
      → Keeps P other
      → ((a : A) → Keeps P (f a))
      → Keeps P (or_else o other f)
  or_else-Keeps none other f ko kf = ko
  or_else-Keeps (some a) other f ko kf = kf a

  pub load_account-Keeps : (w : Webauthn) (u : User) → Keeps P (load_account w u)
  unfolding load_account list_passkeys
  load_account-Keeps w u =
      Keeps-bind _ _ (Keeps-query _)
        (λ rows. or_else-Keeps (decode_all w rows) _ _ (Keeps-raise _) (λ cs. Keeps-pure _))

  pub named-Keeps : (w : Webauthn) (handle : String) → Keeps P (named w handle)
  unfolding named get_user_by_handle
  named-Keeps w handle =
      Keeps-bind _ _ (Keeps-query _)
        (λ found. or_else-Keeps found _ _ (Keeps-raise _) (load_account-Keeps w))

  pub joined-Keeps : (w : Webauthn) (id : ℕ) → Keeps P (joined w id)
  unfolding joined get_user
  joined-Keeps w id =
      Keeps-bind _ _ (Keeps-query _)
        (λ found. or_else-Keeps found _ _ (Keeps-raise _) (load_account-Keeps w))

  pub enrolling_account-Keeps :
      (w : Webauthn) (handle : String) (e : UserEnrollment) → Keeps P (enrolling_account w handle e)
  unfolding enrolling_account
  enrolling_account-Keeps w handle e = or_else-Keeps e.user_id _ _ (Keeps-pure _) (joined-Keeps w)

  pub enrolling_account_from-Keeps :
      (w : Webauthn) (e : UserEnrollment) (handle : String)
      → Keeps P (enrolling_account_from w e handle)
  unfolding enrolling_account_from get_user_by_handle
  enrolling_account_from-Keeps w e handle =
      or_else-Keeps e.user_id _ _
        (Keeps-bind _ _ (Keeps-query _)
          (λ found. or_else-Keeps found _ _ (Keeps-pure _) (load_account-Keeps w)))
        (joined-Keeps w)

module _ {P : Store → Type 0} (k : IsEnrolled P) where
  module _ (c : Crypto) where
    open_session-Keeps :
        (raw : String) (clock : Instant) (user : ℕ) (id agent : String)
        → Keeps P (open_session c raw clock user id agent)
    unfolding open_session
    open_session-Keeps raw clock user id agent = Keeps-bind _ _ (k.opens _ refl) (λ _. Keeps-pure _)

  module _ (c : Crypto) (w : Webauthn) where
    enrolled_user-Keeps : (acct : Account) → Keeps P (enrolled_user c w acct)
    unfolding enrolled_user
    enrolled_user-Keeps acct =
        Keeps-if _ _ _ (Keeps-bind _ _ (k.makes _) (λ u. Keeps-pure _)) (Keeps-pure _)

    pub enrolled-Keeps :
        (raw : String) (clock : Instant) (e : UserEnrollment) (acct : Account)
        (credential : Credential) (r : Request)
        → Keeps P (enrolled c w raw clock e acct credential r)
    unfolding enrolled
    enrolled-Keeps raw clock e acct credential r = Keeps-transaction _ (
        Keeps-bind _ _ (enrolled_user-Keeps acct) (λ id.
          Keeps-bind _ _ (k.enrols _)
            (λ _. Keeps-bind _ _ (open_session-Keeps c raw clock _ _ _) (λ _. Keeps-pure _))))

module _ {P : Store → Type 0} (taken : (id : String) → Keeps P (consume id)) where
  pub consume_ceremony-Keeps : (id purpose : String) → Keeps P (consume_ceremony id purpose)
  unfolding consume_ceremony
  consume_ceremony-Keeps id purpose = Keeps-bind _ _ (Keeps-raise_if _ _) (λ _.
      Keeps-bind _ _ (taken id) (λ found.
        or_else-Keeps found _ _ (Keeps-raise _)
          (λ cer. Keeps-bind _ _ (Keeps-raise_if _ _) (λ _. Keeps-pure cer))))

module _ {P : Store → Type 0} (k : IsFinished P) where
  module _ (c : Crypto) (w : Webauthn) where
    signed-Keeps :
        (raw : String) (clock : Instant) (acct : Account) (credential : Credential) (r : Request)
        → Keeps P (signed c w raw clock acct credential r)
    unfolding signed
    signed-Keeps raw clock acct credential r = Keeps-transaction _ (
        Keeps-bind _ _ (k.uses _ _)
          (λ _. Keeps-bind _ _ (open_session-Keeps k.writes c raw clock _ _ _) (λ _. Keeps-pure _)))

    pub answered-Keeps :
        (raw : String) (clock : Instant) (session : Challenge) (r : Request)
        → Keeps P (answered c w raw clock session r)
    unfolding answered
    answered-Keeps raw clock session r =
        or_else-Keeps (w.asserted session r) _ _ (Keeps-raise _) (λ said.
          Keeps-bind _ _ (or_denied-Keeps _ (named-Keeps w said.1)) (λ acct.
            or_else-Keeps (w.validate acct session r) _ _ (Keeps-raise _)
              (λ credential. signed-Keeps raw clock acct credential r)))

    pub login_of-Keeps :
        (raw : String) (clock : Instant) (r : Request) (cer : WebauthnCeremony)
        → Keeps P (login_of c w raw clock r cer)
    unfolding login_of
    login_of-Keeps raw clock r cer =
        or_else-Keeps (w.decode_challenge cer.session) _ _ (Keeps-raise _)
          (λ session. answered-Keeps raw clock session r)

    pub finish_login-Keeps :
        (raw : String) (clock : Instant) (id : String) (r : Request)
        → Keeps P (finish_login c w raw clock id r)
    unfolding finish_login
    finish_login-Keeps raw clock id r =
        Keeps-bind _ _ (consume_ceremony-Keeps k.consumes id _) (login_of-Keeps raw clock r)

    pub registered_with-Keeps :
        (raw : String) (clock : Instant) (e : UserEnrollment) (r : Request) (session : Challenge)
        → Keeps P (registered_with c w raw clock e r session)
    unfolding registered_with
    registered_with-Keeps raw clock e r session =
        Keeps-bind _ _ (enrolling_account_from-Keeps w e session.user_id) (λ acct.
          or_else-Keeps (w.finish_registration acct session r) _ _
            (Keeps-bind _ _ (best_effort-Keeps _ (k.releases _)) (λ _. Keeps-raise _))
            (λ credential. enrolled-Keeps k.writes c w raw clock e acct credential r))

    pub enrollment_of-Keeps :
        (raw : String) (clock : Instant) (r : Request) (cer : WebauthnCeremony)
        → Keeps P (enrollment_of c w raw clock r cer)
    unfolding enrollment_of get_enrollment
    enrollment_of-Keeps raw clock r cer =
        Keeps-bind _ _ (or_denied-Keeps _ (Keeps-query _)) (λ found.
          or_else-Keeps found _ _ (Keeps-raise _) (λ e.
            or_else-Keeps (w.decode_challenge cer.session) _ _ (Keeps-raise _)
              (registered_with-Keeps raw clock e r)))

    pub finish_enrollment-Keeps :
        (raw : String) (clock : Instant) (id : String) (r : Request)
        → Keeps P (finish_enrollment c w raw clock id r)
    unfolding finish_enrollment
    finish_enrollment-Keeps raw clock id r =
        Keeps-bind _ _ (consume_ceremony-Keeps k.consumes id _) (enrollment_of-Keeps raw clock r)
