-- ===== src/Admin/Once.antt =====
-- What is used up: a challenge is answered once, and an invitation enrols one phone.
use Prim.Native.String.{String}
use mathlib.Core.Path.{subst}
use text.Mathlib.Text.{◌==◌ as str_eq}
use bealhouse.Prelude.{
  ◌≤◌, ◌≡◌, refl, Bool, true, false, not, ◌&&◌, List, Option, none, some, All, ltb, arith,
}
use bealhouse.Prelude.Rows.{All-imply, All-keep, All-rest, All-All, first-none}
use bealhouse.Db.Schema.{Store, Instant, WebauthnCeremony}
use bealhouse.Db.Session.{
  Action, ok, Fault, Session, succeeded, raise, raise_if, pure, denied, ◌>>◌,
}
use bealhouse.Db.Keeps.{
  Ensures, Keeps-raise_if, Keeps-statement, Keeps-exec, Keeps-pure, Keeps-raise, Keeps-bind,
}
use bealhouse.Db.Ensures.{
  Ensures-keeps, Ensures-bind, Ensures-statement, Ensures-raise, ensured, refused,
}
use bealhouse.Db.Accounts.{
  create_user, user_constraints, create_passkey, passkey_constraints, update_passkey_after_use,
}
use bealhouse.Db.Enrollments.{release_enrollment, consume, is_answerable, take_ceremony}
use bealhouse.Db.Devices.{create_session, session_constraints}
use bealhouse.Admin.{Crypto, Webauthn, Request, Identity, or_else}
use bealhouse.Admin.Devices.{SignedIn}
use bealhouse.Admin.Login.{consume_ceremony, finish_login}
use bealhouse.Admin.Enroll.{finish_enrollment}
use bealhouse.Admin.Kept.{IsFinished, login_of-Keeps, enrollment_of-Keeps, or_else-Keeps}
use bealhouse.Admin.Out.{later}
use bealhouse.Admin.Tables.{Keeps-constrained}

-- No challenge of the id can be answered, from some time on.
abbrev Spent : String → Instant → WebauthnCeremony → Type 0
Spent id since c = (now : Instant) → since ≤ now → is_answerable id now c ≡ false

abbrev IsSpent : String → Instant → Store → Type 0
IsSpent id since d = All (Spent id since) d.accounts.ceremonies

-- The clock of the database while an operation runs.
abbrev At : Instant → Store → Type 0
At now d = d.now ≡ now

-- A challenge that cannot be answered now cannot be answered later.
stays :
    (id : String) (now : Instant) (c : WebauthnCeremony)
    → is_answerable id now c ≡ false
    → Spent id now c
stays id now c h t le = go (str_eq c.id id) h
  where
    go : (b : Bool) → (b && ltb now c.expires_at) ≡ false → (b && ltb t c.expires_at) ≡ false
    go true k = ground arith
    go false k = refl

IsSpent-IsFinished : (id : String) (since : Instant) → IsFinished (IsSpent id since)
unfolding create_user create_passkey update_passkey_after_use release_enrollment consume
    create_session
IsSpent-IsFinished id since = record {
  writes = record {
    makes = λ arg. Keeps-constrained (IsSpent id since) (user_constraints arg) _ (λ d ps h. h);
    enrols = λ arg. Keeps-constrained (IsSpent id since) (passkey_constraints arg) _ (λ d ps h. h);
    opens = λ arg e. Keeps-constrained (IsSpent id since) (session_constraints arg) _ (λ d ps h. h);
  };
  uses = λ key credential. Keeps-exec _ (λ d h. h);
  releases = λ hash. Keeps-exec _ (λ d h. h);
  consumes = λ other. Keeps-statement _ (λ d h. All-keep (Spent id since) _ _ h);
}

taken :
    (id : String) (since : Instant) (d : Store)
    → At since d
    → IsSpent id since (take_ceremony id d).1
taken id since d e =
    subst (λ t. All (Spent id t) (take_ceremony id d).1.accounts.ceremonies) e
      (All-rest (λ c. Unit {0}) (Spent id d.now) (is_answerable id d.now) d.accounts.ceremonies
        (λ c _ h. stays id d.now c h) (All-All _ _ (λ c. tt)))

consume_ceremony-IsSpent :
    (id purpose : String) (since : Instant)
    → Ensures (At since) (consume_ceremony id purpose) (λ cer. IsSpent id since)
unfolding consume_ceremony consume
consume_ceremony-IsSpent id purpose since =
    Ensures-bind _ _ (λ _. At since) _ (Ensures-keeps _ (Keeps-raise_if _ _))
      (λ _.
        Ensures-bind _ _ (λ found. IsSpent id since) _
          (Ensures-statement _ (λ found. IsSpent id since) (taken id since))
          (λ found. Ensures-keeps _ (
            or_else-Keeps found _ _ (Keeps-raise _)
              (λ cer. Keeps-bind _ _ (Keeps-raise_if _ _) (λ _. Keeps-pure cer)))))

consume_ceremony-refused :
    (id purpose : String) (since : Instant)
    → Ensures (λ d. IsSpent id since d × (since ≤ d.now)) (consume_ceremony id purpose) (λ cer d. ⊥)
unfolding consume_ceremony consume
consume_ceremony-refused id purpose since =
    Ensures-bind _ _ (λ _ d. IsSpent id since d × (since ≤ d.now)) _
      (Ensures-keeps _ (Keeps-raise_if _ _))
      (λ _.
        Ensures-bind _ _ (λ found d. found ≡ none) _
          (Ensures-statement _ (λ found d. found ≡ none)
            (λ d h.
              first-none (is_answerable id d.now) d.accounts.ceremonies
                (All-imply (Spent id since) _ _ (λ c k. k d.now h.1) h.0)))
          turned)
  where
    turned :
        (found : Option WebauthnCeremony)
        → Ensures
            (λ d. found ≡ none)
            (or_else found
              (raise denied)
              (λ cer. do raise_if (not (str_eq cer.purpose purpose)) denied; pure cer))
            (λ cer d. ⊥)
    turned none = Ensures-raise _ _
    turned (some cer) = record { at = λ s h. absurd (cc) }

-- The second half of either ceremony.
pub data Half : Type 0 where
  login register : Half

module _ (c : Crypto) (w : Webauthn) where
  abbrev pub finish : Half → String → Instant → String → Request → Action (SignedIn × Identity)
  finish login = finish_login c w
  finish register = finish_enrollment c w

  finish-IsSpent :
      (half : Half) (raw : String) (clock : Instant) (id : String) (r : Request) (since : Instant)
      → Ensures (At since) (finish half raw clock id r) (λ who. IsSpent id since)
  unfolding finish_login finish_enrollment
  finish-IsSpent login raw clock id r since =
      Ensures-bind _ _ (λ cer. IsSpent id since) _ (consume_ceremony-IsSpent id _ since)
        (λ cer. Ensures-keeps _ (login_of-Keeps (IsSpent-IsFinished id since) c w raw clock r cer))
  finish-IsSpent register raw clock id r since =
      Ensures-bind _ _ (λ cer. IsSpent id since) _ (consume_ceremony-IsSpent id _ since)
        (λ cer.
          Ensures-keeps _ (enrollment_of-Keeps (IsSpent-IsFinished id since) c w raw clock r cer))

  finish-refused :
      (half : Half) (raw : String) (clock : Instant) (id : String) (r : Request) (since : Instant)
      → Ensures
          (λ d. IsSpent id since d × (since ≤ d.now))
          (finish half raw clock id r)
          (λ who d. ⊥)
  unfolding finish_login finish_enrollment
  finish-refused login raw clock id r since =
      Ensures-bind _ _ (λ cer d. ⊥) _ (consume_ceremony-refused id _ since)
        (λ cer. record { at = λ s h. absurd h })
  finish-refused register raw clock id r since =
      Ensures-bind _ _ (λ cer d. ⊥) _ (consume_ceremony-refused id _ since)
        (λ cer. record { at = λ s h. absurd h })

  -- A challenge with which a ceremony has been finished with success finishes no other, be it a
  -- sign-in or an enrollment, at any time from then on, with any answer and whichever statements
  -- fail.
  pub answered_once :
      (half : Half) (raw : String) (clock : Instant) (id : String) (r : Request) (s : Session)
      (who : SignedIn × Identity)
      → (finish half raw clock id r s).0 ≡ ok who
      → (now : Instant) → s.db.now ≤ now
      → (again : Half) (raw' : String) (clock' : Instant) (r' : Request)
        (fate : List (Option Fault))
      → succeeded
          (finish again raw' clock' id r' (later (finish half raw clock id r s).1.db now fate)).0
        ≡ false
  answered_once half raw clock id r s who e now le again raw' clock' r' fate =
      refused (finish-refused again raw' clock' id r' s.db.now)
        (later (finish half raw clock id r s).1.db now fate)
        (ensured (finish-IsSpent half raw clock id r s.db.now) s who refl e, le)
