-- ===== src/Admin/Ceiling.antt =====
-- The ceiling of a session's life, under every statement on the accounts.
use Prim.Native.String.{String}
use bealhouse.Prelude.{ℕ, ◌+◌, ◌≤◌, ◌≡◌, Bool, true, false, ◌&&◌, List, none, All, arith}
use bealhouse.Prelude.Rows.{All-append, All-amend, All-keep}
use bealhouse.Db.Schema.{Store, UserSession, Instant}
use bealhouse.Db.Keeps.{
  Keeps, Keeps-statement, Keeps-exec, Keeps-query, Keeps-raise_if, Keeps-bind, Keeps-transaction,
}
use bealhouse.Db.Accounts.{
  create_user, create_passkey, update_passkey_after_use, forget, delete_passkey, count_passkeys,
  same_bytes, user_constraints, passkey_constraints,
}
use bealhouse.Db.Enrollments.{
  release_enrollment, consume, create_enrollment, claim_enrollment, create_ceremony,
  enrollment_constraints, ceremony_constraints,
}
use bealhouse.Db.Devices.{
  create_session, session_constraints, CreateSessionParams, session_of, touch_session, touched,
  has_token, is_live, revoke_session, revoked, revoke_all_sessions_for_user,
  revoke_sessions_for_passkey, revoke_where, sweep_expired_auth,
}
use bealhouse.Admin.{session_lifetime, session_ceiling}
use bealhouse.Admin.Devices.{may_revoke, remove_phone, revoke_passkey}
use bealhouse.Admin.Kept.{IsFinished, IsKept}
use bealhouse.Admin.Tables.{Keeps-constrained, claim_row-cases}

abbrev pub Ceiled : UserSession → Type 0
Ceiled x = x.expires_at ≤ x.created_at + session_ceiling

abbrev pub IsCeiled : Store → Type 0
IsCeiled d = All Ceiled d.accounts.sessions

opened-Ceiled :
    (arg : CreateSessionParams) (now : Instant)
    → arg.lifetime_seconds ≡ session_lifetime
    → Ceiled (session_of arg now)
opened-Ceiled arg now e = omega arith

touched-Ceiled :
    (now : Instant) (x : UserSession) → Ceiled (touched session_lifetime session_ceiling now x)
touched-Ceiled now x = omega arith

revoke_where-Ceiled :
    (test : UserSession → Bool) (d : Store) → IsCeiled d → IsCeiled (revoke_where test d).1
revoke_where-Ceiled test d h =
    All-amend Ceiled Ceiled _ (revoked d.now) _ (λ x hx _. hx) (λ x hx _. hx) h

IsCeiled-IsFinished : IsFinished IsCeiled
unfolding create_user create_passkey update_passkey_after_use release_enrollment consume
    create_session
IsCeiled-IsFinished = record {
  writes = record {
    makes = λ arg. Keeps-constrained IsCeiled (user_constraints arg) _ (λ d ps h. h);
    enrols = λ arg. Keeps-constrained IsCeiled (passkey_constraints arg) _ (λ d ps h. h);
    opens = λ arg e.
        Keeps-constrained IsCeiled (session_constraints arg) _
          (λ d ps h. All-append Ceiled _ _ h (opened-Ceiled arg d.now e, tt));
  };
  uses = λ id credential. Keeps-exec _ (λ d h. h);
  releases = λ hash. Keeps-exec _ (λ d h. h);
  consumes = λ id. Keeps-statement _ (λ d h. h);
}

pub IsCeiled-IsKept : IsKept IsCeiled
unfolding create_enrollment claim_enrollment create_ceremony touch_session revoke_session
    revoke_all_sessions_for_user sweep_expired_auth
IsCeiled-IsKept = record {
  finished = IsCeiled-IsFinished;
  invites = λ arg. Keeps-constrained IsCeiled (enrollment_constraints arg) _ (λ d ps h. h);
  claims = λ hash. Keeps-statement _ (λ d h. claim_row-cases (λ r. IsCeiled) hash d h (λ e. h));
  challenges = λ arg. Keeps-constrained IsCeiled (ceremony_constraints arg) _ (λ d ps h. h);
  touches = λ hash. Keeps-exec _ (λ d h.
      All-amend Ceiled Ceiled (λ x. has_token hash x && is_live d.now x)
        (touched session_lifetime session_ceiling d.now) d.accounts.sessions
        (λ x _ _. touched-Ceiled d.now x) (λ x hx _. hx) h);
  revokes = λ hash. Keeps-statement _ (revoke_where-Ceiled _);
  revokes_all = λ id. Keeps-statement _ (revoke_where-Ceiled _);
  sweeps = Keeps-exec _ (λ d h. All-keep Ceiled _ _ h);
}

forget_key : UserSession → UserSession
forget_key x = record x { passkey_id = none }

forget-Ceiled :
    (gone : Bool) (id : String) (xs : List UserSession)
    → All Ceiled xs
    → All Ceiled (forget gone id xs)
unfolding forget_key
forget-Ceiled true id xs h =
    All-amend Ceiled Ceiled (λ x. same_bytes id x.passkey_id) forget_key xs (λ x hx _. hx)
      (λ x hx _. hx) h
forget-Ceiled false id xs h = h

pub remove_phone-IsCeiled : (user : ℕ) (id : String) → Keeps IsCeiled (remove_phone user id)
unfolding remove_phone revoke_sessions_for_passkey delete_passkey
remove_phone-IsCeiled user id = Keeps-bind _ _ (Keeps-statement _ (revoke_where-Ceiled _)) (λ n.
    Keeps-bind _ _ (Keeps-statement _ (λ d h. forget-Ceiled _ id d.accounts.sessions h))
      (λ removed. Keeps-raise_if _ _))

pub revoke_passkey-IsCeiled : (user : ℕ) (id : String) → Keeps IsCeiled (revoke_passkey user id)
unfolding revoke_passkey may_revoke count_passkeys
revoke_passkey-IsCeiled user id = Keeps-transaction _ (
    Keeps-bind _ _ (Keeps-bind _ _ (Keeps-query _) (λ remaining. Keeps-raise_if _ _))
      (λ _. remove_phone-IsCeiled user id))
