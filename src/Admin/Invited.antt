-- ===== src/Admin/Invited.antt =====
-- An invitation is spent by the first phone that begins with it, unless its ceremony fails.
use Prim.Native.String.{String}
use mathlib.Core.Path.{subst}
use text.Mathlib.Text.{◌==◌ as str_eq}
use bealhouse.Prelude.{
  ◌≤◌, ◌≡◌, refl, Bool, true, false, ◌&&◌, List, Option, none, some, All, first, ltb, arith,
}
use bealhouse.Prelude.Rows.{All-amend, All-imply, All-keep, All-All, first-none}
use bealhouse.Db.Schema.{Store, Instant, UserEnrollment, WebauthnCeremony}
use bealhouse.Db.Session.{Action, Outcome, ok, err, Fault, Session, succeeded, raise, denied}
use bealhouse.Db.Keeps.{Ensures, Returns, Keeps-query, Keeps-raise_if, Keeps-statement, Keeps-exec}
use bealhouse.Db.Ensures.{
  Ensures-keeps, Ensures-bind, Ensures-statement, Ensures-raise, Ensures-any, ensured, refused,
}
use bealhouse.Db.Accounts.{create_user, user_constraints, create_passkey, passkey_constraints}
use bealhouse.Db.Enrollments.{
  create_ceremony, ceremony_constraints, consume, claim_enrollment, claim_row, is_claimable,
  is_unspent, get_enrollment, release_enrollment,
}
use bealhouse.Db.Devices.{create_session, session_constraints, sweep_expired_auth}
use bealhouse.Admin.{
  Crypto, Webauthn, Request, Identity, Challenge, hash_token, or_else, on_failure,
}
use bealhouse.Admin.Devices.{SignedIn}
use bealhouse.Admin.Enroll.{
  begin_enrollment, challenge_for, finish_enrollment, enrollment_of, registered_with,
}
use bealhouse.Admin.Kept.{
  IsEnrolled, best_effort-Keeps, or_denied-Keeps, consume_ceremony-Keeps,
  enrolling_account_from-Keeps, enrolled-Keeps,
}
use bealhouse.Admin.Operations.{challenge_for-Keeps}
use bealhouse.Admin.Out.{later}
use bealhouse.Admin.Tables.{Keeps-constrained, claim_row-cases, spent_at}

abbrev Taken : String → Instant → UserEnrollment → Type 0
Taken hash since e = (now : Instant) → since ≤ now → is_claimable hash now e ≡ false

abbrev IsTaken : String → Instant → Store → Type 0
IsTaken hash since d = All (Taken hash since) d.accounts.enrollments

abbrev At : Instant → Store → Type 0
At now d = d.now ≡ now

-- What a claim that found an invitation leaves.
abbrev Granted : String → Instant → Option UserEnrollment → Store → Type 0
Granted hash since none d = Unit
Granted hash since (some e) d = IsTaken hash since d

hit-Taken :
    (hash : String) (since : Instant) (d : Store) (e : UserEnrollment)
    → Taken hash since (spent_at d e)
hit-Taken hash since d e now le = go (str_eq e.token_hash hash)
  where
    go : (b : Bool) → (b && false && ltb now e.expires_at) ≡ false
    go true = refl
    go false = refl

miss-Taken :
    (hash : String) (since : Instant) (e : UserEnrollment)
    → is_claimable hash since e ≡ false
    → Taken hash since e
miss-Taken hash since e h now le = go (str_eq e.token_hash hash) (is_unspent e.used_at) h
  where
    go :
        (a b : Bool)
        → (a && b && ltb since e.expires_at) ≡ false
        → (a && b && ltb now e.expires_at) ≡ false
    go true true k = ground arith
    go true false k = refl
    go false b k = refl

claim_enrollment-Granted :
    (hash : String) (since : Instant)
    → Ensures (At since) (claim_enrollment hash) (Granted hash since)
unfolding claim_enrollment
claim_enrollment-Granted hash since = Ensures-statement _ (Granted hash since) (λ d e.
    subst (λ t. Returns (Granted hash t) (claim_row hash d).0 (claim_row hash d).1) e
      (claim_row-cases (Returns (Granted hash d.now)) hash d tt (λ x.
        All-amend (λ _. Unit {0}) (Taken hash d.now) (is_claimable hash d.now) (spent_at d)
          d.accounts.enrollments (λ y _ _. hit-Taken hash d.now d y)
          (λ y _ h. miss-Taken hash d.now y h) (All-All _ _ (λ y. tt)))))

Ensures-on_failure :
    {A : Type 0} {P : Store → Type 0} (m : Action A) (cleanup : Action (Unit {0}))
    (Q : A → Store → Type 0)
    → Ensures P m Q
    → Ensures P (on_failure m cleanup) Q
unfolding on_failure
Ensures-on_failure {A} m cleanup Q k = record { at = λ s h. go (m s).0 (m s).1 (k.at s h) }
  where
    go :
        (r : Outcome A) (t : Session)
        → Returns Q r t.db
        → Returns Q (on_failure (λ u. (r, t)) cleanup t).0 (on_failure (λ u. (r, t)) cleanup t).1.db
    go (ok a) t h = h
    go (err e) t h = tt

pub Ensures-or_else :
    {A B : Type 0} {P : Store → Type 0} {Q : B → Store → Type 0} (o : Option A) (other : Action B)
    (f : A → Action B)
    → Ensures P other Q
    → ((a : A) → Ensures P (f a) Q)
    → Ensures P (or_else o other f) Q
Ensures-or_else none other f ko kf = ko
Ensures-or_else (some a) other f ko kf = kf a

IsTaken-IsEnrolled : (hash : String) (since : Instant) → IsEnrolled (IsTaken hash since)
unfolding create_user create_passkey create_session
IsTaken-IsEnrolled hash since = record {
  makes = λ arg. Keeps-constrained (IsTaken hash since) (user_constraints arg) _ (λ d ps h. h);
  enrols = λ arg. Keeps-constrained (IsTaken hash since) (passkey_constraints arg) _ (λ d ps h. h);
  opens = λ arg e. Keeps-constrained (IsTaken hash since) (session_constraints arg) _ (λ d ps h. h);
}

module _ (c : Crypto) (w : Webauthn) where
  begin_enrollment-IsTaken :
      (handle id token : String) (since : Instant)
      → Ensures
          (At since)
          (begin_enrollment c w handle id token)
          (λ out. IsTaken (hash_token c token) since)
  unfolding begin_enrollment sweep_expired_auth create_ceremony
  begin_enrollment-IsTaken handle id token since =
      let hash = hash_token c token in
      Ensures-bind _ _ (λ _. At since) _
        (Ensures-keeps _ (best_effort-Keeps _ (Keeps-exec _ (λ d h. h))))
        (λ _.
          Ensures-bind _ _ (λ _. At since) _ (Ensures-keeps _ (Keeps-raise_if _ _))
            (λ _.
              Ensures-bind _ _ (Granted hash since) _ (claim_enrollment-Granted hash since)
                granted))
    where
      granted :
          (claimed : Option UserEnrollment)
          → Ensures
              (Granted (hash_token c token) since claimed)
              (or_else claimed
                (raise denied)
                (λ e. on_failure (challenge_for w handle id e) (release_enrollment e.token_hash)))
              (λ out. IsTaken (hash_token c token) since)
      granted none = Ensures-raise _ _
      granted (some e) =
          Ensures-on_failure _ _ (λ out. IsTaken (hash_token c token) since)
            (Ensures-keeps _ (
              challenge_for-Keeps
                (λ arg.
                  Keeps-constrained (IsTaken (hash_token c token) since) (ceremony_constraints arg)
                    _ (λ d ps h. h))
                w handle id e))

  begin_enrollment-refused :
      (handle id token : String) (since : Instant)
      → Ensures
          (λ d. IsTaken (hash_token c token) since d × (since ≤ d.now))
          (begin_enrollment c w handle id token)
          (λ out d. ⊥)
  unfolding begin_enrollment sweep_expired_auth claim_enrollment
  begin_enrollment-refused handle id token since =
      Ensures-bind _ _ (λ _. Before) _
        (Ensures-keeps _ (
          best_effort-Keeps _
            (Keeps-exec _ (λ d h. (All-keep (Taken (hash_token c token) since) _ _ h.0, h.1)))))
        (λ _.
          Ensures-bind _ _ (λ _. Before) _ (Ensures-keeps _ (Keeps-raise_if _ _))
            (λ _.
              Ensures-bind _ _ (λ found d. found ≡ none) _
                (Ensures-statement _ (λ found d. found ≡ none) none_found) turned))
    where
      Before : Store → Type 0
      Before d = IsTaken (hash_token c token) since d × (since ≤ d.now)

      none_found :
          (d : Store)
          → Before d
          → Returns
              (λ found e. found ≡ none)
              (claim_row (hash_token c token) d).0
              (claim_row (hash_token c token) d).1
      none_found d h =
          let gone : first (is_claimable (hash_token c token) d.now) d.accounts.enrollments ≡ none =
            first-none (is_claimable (hash_token c token) d.now) d.accounts.enrollments
              (All-imply (Taken (hash_token c token) since) _ _ (λ e k. k d.now h.1) h.0) in
          rw (gone, claim_row) refl

      turned :
          (found : Option UserEnrollment)
          → Ensures
              (λ d. found ≡ none)
              (or_else found
                (raise denied)
                (λ e. on_failure (challenge_for w handle id e) (release_enrollment e.token_hash)))
              (λ out d. ⊥)
      turned none = Ensures-raise _ _
      turned (some e) = record { at = λ s h. absurd (cc) }

  registered_with-IsTaken :
      (hash : String) (since : Instant) (raw : String) (clock : Instant) (e : UserEnrollment)
      (r : Request) (session : Challenge)
      → Ensures
          (IsTaken hash since)
          (registered_with c w raw clock e r session)
          (λ who. IsTaken hash since)
  unfolding registered_with
  registered_with-IsTaken hash since raw clock e r session =
      Ensures-bind _ _ (λ acct. IsTaken hash since) _
        (Ensures-keeps _ (enrolling_account_from-Keeps w e session.user_id))
        (λ acct.
          Ensures-or_else (w.finish_registration acct session r) _ _
            (Ensures-bind _ _ (λ _ d. Unit) _ (Ensures-any _) (λ _. Ensures-raise _ _))
            (λ credential.
              Ensures-keeps _
                (enrolled-Keeps (IsTaken-IsEnrolled hash since) c w raw clock e acct credential r)))

  enrollment_of-IsTaken :
      (hash : String) (since : Instant) (raw : String) (clock : Instant) (r : Request)
      (cer : WebauthnCeremony)
      → Ensures (IsTaken hash since) (enrollment_of c w raw clock r cer) (λ who. IsTaken hash since)
  unfolding enrollment_of get_enrollment
  enrollment_of-IsTaken hash since raw clock r cer =
      Ensures-bind _ _ (λ found. IsTaken hash since) _
        (Ensures-keeps _ (or_denied-Keeps _ (Keeps-query _)))
        (λ found. Ensures-or_else found _ _ (Ensures-raise _ _) (λ e.
          Ensures-or_else (w.decode_challenge cer.session) _ _ (Ensures-raise _ _)
            (registered_with-IsTaken hash since raw clock e r)))

  finish_enrollment-IsTaken :
      (hash : String) (since : Instant) (raw : String) (clock : Instant) (id : String) (r : Request)
      → Ensures
          (IsTaken hash since)
          (finish_enrollment c w raw clock id r)
          (λ who. IsTaken hash since)
  unfolding finish_enrollment consume
  finish_enrollment-IsTaken hash since raw clock id r =
      Ensures-bind _ _ (λ cer. IsTaken hash since) _
        (Ensures-keeps _ (consume_ceremony-Keeps (λ other. Keeps-statement _ (λ d h. h)) id _))
        (enrollment_of-IsTaken hash since raw clock r)

  -- After an enrollment has begun with an invitation, and a phone's enrollment has been finished
  -- with success, the invitation begins no other: at any time from then on, and whichever
  -- statements fail.
  pub invitation_spent :
      (handle id token : String) (s : Session) (challenge : Challenge × String)
      → (begin_enrollment c w handle id token s).0 ≡ ok challenge
      → (raw : String) (clock : Instant) (r : Request) (then_now : Instant)
        (then_fate : List (Option Fault)) (who : SignedIn × Identity)
      → (finish_enrollment c w raw clock id r
          (later (begin_enrollment c w handle id token s).1.db then_now then_fate)).0
        ≡ ok who
      → (handle' id' : String) (now : Instant) (fate : List (Option Fault)) → s.db.now ≤ now
      → succeeded
          (begin_enrollment c w handle' id' token (
            later
              (finish_enrollment c w raw clock id r
                (later (begin_enrollment c w handle id token s).1.db then_now then_fate)).1.db
              now
              fate)).0
        ≡ false
  invitation_spent handle id token s challenge e raw clock r then_now then_fate who f handle' id'
        now fate le =
      let begun = later (begin_enrollment c w handle id token s).1.db then_now then_fate in
      let first_taken =
        ensured (begin_enrollment-IsTaken handle id token s.db.now) s challenge refl e in
      let still =
        ensured (finish_enrollment-IsTaken (hash_token c token) s.db.now raw clock id r) begun who
          first_taken f in
      refused (begin_enrollment-refused handle' id' token s.db.now)
        (later (finish_enrollment c w raw clock id r begun).1.db now fate) (still, le)
