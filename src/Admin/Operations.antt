-- ===== src/Admin/Operations.antt =====
-- The other operations of internal/admin keep what their statements keep.
use Prim.Native.String.{String}
use bealhouse.Prelude.{ℕ, Option, none, some}
use bealhouse.Db.Schema.{Store, Instant, UserEnrollment}
use bealhouse.Db.Keeps.{
  Keeps, Keeps-bind, Keeps-pure, Keeps-raise, Keeps-raise_if, Keeps-if, Keeps-query,
}
use bealhouse.Db.Accounts.{get_first_user}
use bealhouse.Db.Enrollments.{CreateCeremonyParams, create_ceremony}
use bealhouse.Db.Devices.{LiveSession, get_live_session}
use bealhouse.Admin.{Crypto, Webauthn, Challenge, hash_token}
use bealhouse.Admin.Devices.{resolved, authenticate, sign_out, sign_out_everywhere}
use bealhouse.Admin.Login.{store_ceremony, begin_login}
use bealhouse.Admin.Enroll.{mint_enrollment, challenge_for, begin_enrollment}
use bealhouse.Admin.Kept.{
  IsKept, best_effort-Keeps, on_failure-Keeps, or_else-Keeps, enrolling_account-Keeps,
}

module _ {P : Store → Type 0}
    (stored : (arg : CreateCeremonyParams) → Keeps P (create_ceremony arg)) (w : Webauthn) where
  store_ceremony-Keeps :
      (purpose : String) (session : Challenge) (enrollment : Option String) (id : String)
      → Keeps P (store_ceremony w purpose session enrollment id)
  unfolding store_ceremony
  store_ceremony-Keeps purpose session enrollment id =
      Keeps-bind _ _ (stored _) (λ _. Keeps-pure id)

  pub challenge_for-Keeps :
      (handle id : String) (e : UserEnrollment) → Keeps P (challenge_for w handle id e)
  unfolding challenge_for
  challenge_for-Keeps handle id e = Keeps-bind _ _ (enrolling_account-Keeps w handle e) (λ acct.
      or_else-Keeps (w.begin_registration acct) _ _ (Keeps-raise _)
        (λ session. Keeps-bind _ _ (store_ceremony-Keeps _ session _ id) (λ _. Keeps-pure _)))

module _ {P : Store → Type 0} (k : IsKept P) where
  module _ (c : Crypto) where
    resolved-Keeps :
        (clock : Instant) (hash : String) (row : Option LiveSession)
        → Keeps P (resolved c clock hash row)
    unfolding resolved
    resolved-Keeps clock hash none = Keeps-raise _
    resolved-Keeps clock hash (some row) =
        Keeps-bind _ _ (Keeps-if _ _ _ (best_effort-Keeps _ (k.touches hash)) (Keeps-pure tt))
          (λ _. Keeps-pure _)

    pub authenticate-Keeps :
        (clock : Instant) (token : String) → Keeps P (authenticate c clock token)
    unfolding authenticate get_live_session
    authenticate-Keeps clock token =
        Keeps-bind _ _ (Keeps-raise_if _ _)
          (λ _. Keeps-bind _ _ (Keeps-query _) (resolved-Keeps clock (hash_token c token)))

    pub sign_out-Keeps : (token : String) → Keeps P (sign_out c token)
    unfolding sign_out
    sign_out-Keeps token =
        Keeps-if _ _ _ (Keeps-pure tt) (Keeps-bind _ _ (k.revokes _) (λ _. Keeps-pure tt))

    pub mint_enrollment-Keeps :
        (raw : String) (clock : Instant) (asked : String)
        → Keeps P (mint_enrollment c raw clock asked)
    unfolding mint_enrollment get_first_user
    mint_enrollment-Keeps raw clock asked =
        Keeps-bind _ _ (Keeps-query _) (λ found. Keeps-bind _ _ (k.invites _) (λ _. Keeps-pure _))

  pub sign_out_everywhere-Keeps : (id : ℕ) → Keeps P (sign_out_everywhere id)
  unfolding sign_out_everywhere
  sign_out_everywhere-Keeps id = Keeps-bind _ _ (k.revokes_all id) (λ _. Keeps-pure tt)

  module _ (w : Webauthn) where
    pub begin_login-Keeps : (id : String) → Keeps P (begin_login w id)
    unfolding begin_login
    begin_login-Keeps id = Keeps-bind _ _ (best_effort-Keeps _ k.sweeps) (λ _.
        or_else-Keeps w.begin_login _ _ (Keeps-raise _) (λ session.
          Keeps-bind _ _ (store_ceremony-Keeps k.challenges w _ session none id)
            (λ _. Keeps-pure _)))

  module _ (c : Crypto) (w : Webauthn) where
    pub begin_enrollment-Keeps :
        (handle id token : String) → Keeps P (begin_enrollment c w handle id token)
    unfolding begin_enrollment
    begin_enrollment-Keeps handle id token = Keeps-bind _ _ (best_effort-Keeps _ k.sweeps) (λ _.
        Keeps-bind _ _ (Keeps-raise_if _ _) (λ _. Keeps-bind _ _ (k.claims _) (λ claimed.
          or_else-Keeps claimed _ _ (Keeps-raise _) (λ e.
            on_failure-Keeps _ _ (challenge_for-Keeps k.challenges w handle id e)
              (k.finished.releases e.token_hash)))))
