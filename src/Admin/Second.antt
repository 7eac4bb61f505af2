-- ===== src/Admin/Second.antt =====
-- The account that an invitation with no account joins.
use Prim.Native.String.{String}
use text.Mathlib.Text.{◌==◌ as str_eq}
use bealhouse.Prelude.{
  ℕ, ◌≡◌, refl, ◌∙◌, suc, Bool, true, false, List, [], ◌∷◌, ◌++◌, Option, none, some, any, first,
  length, length-append, ◌==◌, arith, if◌then◌else◌,
}
use bealhouse.Prelude.Rows.{All-any, first-none}
use bealhouse.Db.Schema.{Store, Instant, User, UserEnrollment}
use bealhouse.Db.Session.{Action, ok, Session, pure, ◌>>=◌}
use bealhouse.Db.Keeps.{Ensures, Keeps}
use bealhouse.Db.Ensures.{
  Ensures-keeps, Ensures-bind, Ensures-statement, Ensures-query, Ensures-raise, Ensures-any,
  Ensures-pure, Ensures-transaction, ensured,
}
use bealhouse.Db.Accounts.{
  CreateUserParams, CreatePasskeyParams, create_user, user_constraints, create_passkey,
  passkey_constraints, get_user_by_handle,
}
use bealhouse.Db.Devices.{CreateSessionParams, create_session, session_constraints}
use bealhouse.Admin.{
  Crypto, Webauthn, Request, Identity, Challenge, Credential, Account, or_else, load_account,
}
use bealhouse.Admin.Devices.{SignedIn, open_session}
use bealhouse.Admin.Enroll.{
  inn_name, enrolling_account_from, enrolled_user, enrolled, registered_with,
}
use bealhouse.Admin.Invited.{Ensures-or_else}
use bealhouse.Admin.Tables.{Keeps-constrained, Returns-constrained}

abbrev Has : ℕ → Store → Type 0
Has n d = length d.accounts.users ≡ n

abbrev IsUnknown : String → ℕ → Store → Type 0
IsUnknown handle n d = Has n d × (any (λ u. str_eq u.handle handle) d.accounts.users ≡ false)

created-Has :
    (arg : CreateUserParams) (n : ℕ) → Ensures (Has n) (create_user arg) (λ u. Has (suc n))
unfolding create_user
created-Has arg n =
    Ensures-statement _ (λ u. Has (suc n))
      (λ d h.
        Returns-constrained (λ u. Has (suc n)) (user_constraints arg d) d _ (λ ps. one_more _ d h))
  where
    one_more :
        (u : User) (d : Store)
        → length d.accounts.users ≡ n
        → length (d.accounts.users ++ (u ∷ [])) ≡ suc n
    one_more u d h = omega (arith, length-append d.accounts.users (u ∷ []))

create_passkey-Has : (n : ℕ) (arg : CreatePasskeyParams) → Keeps (Has n) (create_passkey arg)
unfolding create_passkey
create_passkey-Has n arg = Keeps-constrained (Has n) (passkey_constraints arg) _ (λ d ps h. h)

create_session-Has : (n : ℕ) (arg : CreateSessionParams) → Keeps (Has n) (create_session arg)
unfolding create_session
create_session-Has n arg = Keeps-constrained (Has n) (session_constraints arg) _ (λ d ps h. h)

module _ (c : Crypto) (w : Webauthn) where
  from-none :
      (e : UserEnrollment) (handle : String) (n : ℕ)
      → e.user_id ≡ none
      → Ensures
          (IsUnknown handle n)
          (enrolling_account_from w e handle)
          (λ acct d. (acct.id ≡ 0) × Has n d)
  unfolding enrolling_account_from get_user_by_handle pure
  from-none e handle n none_yet = rw none_yet (
      Ensures-bind _ _
        (λ found d.
          IsUnknown handle n d × (found ≡ first (λ u. str_eq u.handle handle) d.accounts.users))
        _ (Ensures-query _) turned)
    where
      new : Account
      new = record { id = 0; handle = handle; name = inn_name; creds = [] }

      nobody :
          (us : List User) (o : Option User)
          → any (λ u. str_eq u.handle handle) us ≡ false
          → o ≡ first (λ u. str_eq u.handle handle) us
          → o ≡ none
      nobody us o h k = k ∙ first-none (λ u. str_eq u.handle handle) us (All-any _ us h)

      turned :
          (found : Option User)
          → Ensures
              (λ d.
                IsUnknown handle n d
                × (found ≡ first (λ u. str_eq u.handle handle) d.accounts.users))
              (or_else found (pure new) (load_account w))
              (λ acct d. (acct.id ≡ 0) × Has n d)
      turned none = record { at = λ s h. (refl, h.0.0) }
      turned (some u) = record {
        at = λ s h. absurd (clash (nobody s.db.accounts.users (some u) h.0.1 h.1));
      }
        where
          clash : some u ≡ none → ⊥
          clash k = cc

  enrolled-Has :
      (raw : String) (clock : Instant) (e : UserEnrollment) (acct : Account)
      (credential : Credential) (r : Request) (n : ℕ)
      → Ensures
          (λ d. (acct.id ≡ 0) × Has n d)
          (enrolled c w raw clock e acct credential r)
          (λ who. Has (suc n))
  unfolding enrolled enrolled_user open_session
  enrolled-Has raw clock e acct credential r n = Ensures-transaction _ _ (
      Ensures-bind _ _ (λ id. Has (suc n)) _ (made (acct.id == 0) refl)
        (λ id.
          Ensures-bind _ _ (λ _. Has (suc n)) _ (Ensures-keeps _ (create_passkey-Has (suc n) _))
            (λ _.
              Ensures-bind _ _ (λ out. Has (suc n)) _
                (Ensures-bind _ _ (λ _. Has (suc n)) _
                  (Ensures-keeps _ (create_session-Has (suc n) _))
                  (λ _. Ensures-pure (λ _. Has (suc n)) _))
                (λ out. Ensures-pure (λ _. Has (suc n)) _))))
    where
      made :
          (b : Bool)
          → (acct.id == 0) ≡ b
          → Ensures
              (λ d. (acct.id ≡ 0) × Has n d)
              (if b
                then (do
                  created ← create_user (record { handle = acct.handle; name = acct.name })
                  pure created.id)
                else pure acct.id)
              (λ id. Has (suc n))
      made true z =
          Ensures-bind _ _ (λ u. Has (suc n)) _ (weaker (created-Has _ n))
            (λ u. Ensures-pure (λ _. Has (suc n)) _)
        where
          weaker :
              {A : Type 0} {m : Action A} {Q : A → Store → Type 0}
              → Ensures (Has n) m Q
              → Ensures (λ d. (acct.id ≡ 0) × Has n d) m Q
          weaker k = record { at = λ s h. k.at s h.1 }
      made false z = record { at = λ s h. absurd (clash h.0) }
        where
          clash : acct.id ≡ 0 → ⊥
          clash h = ground arith

  registered_with-Has :
      (raw : String) (clock : Instant) (e : UserEnrollment) (r : Request) (session : Challenge)
      (n : ℕ)
      → e.user_id ≡ none
      → Ensures
          (IsUnknown session.user_id n)
          (registered_with c w raw clock e r session)
          (λ who. Has (suc n))
  unfolding registered_with
  registered_with-Has raw clock e r session n none_yet =
      Ensures-bind _ _ (λ acct d. (acct.id ≡ 0) × Has n d) _
        (from-none e session.user_id n none_yet)
        (λ acct.
          Ensures-or_else (w.finish_registration acct session r) _ _
            (Ensures-bind _ _ (λ _ d. Unit) _ (Ensures-any _) (λ _. Ensures-raise _ _))
            (λ credential. enrolled-Has raw clock e acct credential r n))

  -- An invitation minted while there was no account, whose challenge carries a handle that no
  -- account has, makes a further account when its enrollment succeeds, however many accounts there
  -- are by then.
  pub second_account :
      (raw : String) (clock : Instant) (e : UserEnrollment) (r : Request) (session : Challenge)
      (s : Session) (who : SignedIn × Identity)
      → e.user_id ≡ none
      → any (λ u. str_eq u.handle session.user_id) s.db.accounts.users ≡ false
      → (registered_with c w raw clock e r session s).0 ≡ ok who
      → length (registered_with c w raw clock e r session s).1.db.accounts.users
        ≡ suc (length s.db.accounts.users)
  second_account raw clock e r session s who none_yet unknown ok_who =
      ensured (registered_with-Has raw clock e r session (length s.db.accounts.users) none_yet) s
        who (refl, unknown) ok_who
