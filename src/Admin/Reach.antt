-- ===== src/Admin/Reach.antt =====
-- What the console's accounts can be asked (internal/httpx/admin.go and cmd/server/enroll.go call
-- these), and the stores that any sequence of it reaches, whichever statements fail on the way. The two
-- halves of `RevokePasskey` of session.go can have other requests between them.
use Prim.Native.String.{String}
use native.Mathlib.Decide.{ℕ_discrete as dec_eq}
use mathlib.Core.Path.{subst}
use bealhouse.Prelude.{ℕ, ◌+◌, ◌≤◌, ◌<◌, ◌≡◌, ◌≢◌, refl, sym, ◌∙◌, [], All, arith}
use bealhouse.Db.Schema.{Store, Instant}
use bealhouse.Db.Session.{Session, ok, transaction}
use bealhouse.Db.Keeps.{Keeps, Keeps-transaction}
use bealhouse.Db.Ensures.{ensured}
use bealhouse.Admin.{Crypto, Webauthn, Request, session_ceiling}
use bealhouse.Admin.Devices.{
  authenticate, sign_out, may_revoke, remove_phone, revoke_passkey, sign_out_everywhere,
}
use bealhouse.Admin.Login.{begin_login, finish_login}
use bealhouse.Admin.Enroll.{mint_enrollment, begin_enrollment, finish_enrollment}
use bealhouse.Admin.Kept.{IsKept, finish_login-Keeps, finish_enrollment-Keeps}
use bealhouse.Admin.Operations.{
  authenticate-Keeps, sign_out-Keeps, sign_out_everywhere-Keeps, begin_login-Keeps,
  mint_enrollment-Keeps, begin_enrollment-Keeps,
}
use bealhouse.Admin.Ceiling.{
  IsCeiled, IsCeiled-IsKept, remove_phone-IsCeiled, revoke_passkey-IsCeiled,
}
use bealhouse.Admin.WayIn.{
  IsSingle, IsOpen, ways_in, IsOpen-IsKept, may_revoke-spare, remove_phone-leaves,
  revoke_passkey-IsOpen,
}

-- Random bytes and Go's clock come first.
pub data Operation : Type 0 where
  asks_to_sign_in : String → Operation
  signs_in : (raw : String) → Instant → (ceremony : String) → Request → Operation
  mints : (raw : String) → Instant → (label : String) → Operation
  asks_to_enrol : (handle ceremony token : String) → Operation
  enrols : (raw : String) → Instant → (ceremony : String) → Request → Operation
  visits : Instant → (token : String) → Operation
  signs_out : (token : String) → Operation
  signs_out_everywhere : ℕ → Operation
  revokes : ℕ → (passkey : String) → Operation

-- The rest of the program leaves the tables of 00013_admin_auth.sql as they are.
pub record SameAccounts (d e : Store) : Type 0 where
  pub users : e.accounts.users ≡ d.accounts.users
  pub passkeys : e.accounts.passkeys ≡ d.accounts.passkeys
  pub sessions : e.accounts.sessions ≡ d.accounts.sessions
  pub enrollments : e.accounts.enrollments ≡ d.accounts.enrollments
  pub ceremonies : e.accounts.ceremonies ≡ d.accounts.ceremonies

-- A request that takes no passkey from the account.
abbrev pub IsElse : ℕ → Operation → Type 0
IsElse user o = (other : ℕ) (id : String) → o ≡ revokes other id → other ≢ user

counted_there :
    (user other : ℕ) (s : Session)
    → IsOpen 1 user s.db
    → (may_revoke other s).0 ≡ ok tt
    → IsOpen 1 user s.db × (1 < ways_in other s.db.accounts.passkeys)
counted_there user other s h e = (h, seen)
  where
    seen : 1 < ways_in other s.db.accounts.passkeys
    seen =
        let (same, more) = ensured (may_revoke-spare (λ d. d ≡ s.db) other) s tt refl e in
        subst (λ d. 1 < ways_in other d.accounts.passkeys) same more

module _ (c : Crypto) (w : Webauthn) where
  unfoldable pub perform : Operation → Session → Session
  perform (asks_to_sign_in id) s = (begin_login w id s).1
  perform (signs_in raw clock id r) s = (finish_login c w raw clock id r s).1
  perform (mints raw clock label) s = (mint_enrollment c raw clock label s).1
  perform (asks_to_enrol handle id token) s = (begin_enrollment c w handle id token s).1
  perform (enrols raw clock id r) s = (finish_enrollment c w raw clock id r s).1
  perform (visits clock token) s = (authenticate c clock token s).1
  perform (signs_out token) s = (sign_out c token s).1
  perform (signs_out_everywhere user) s = (sign_out_everywhere user s).1
  perform (revokes user id) s = (revoke_passkey user id s).1

  -- Complete requests, none of which revokes a passkey of the account.
  pub data Between (user : ℕ) (d : Store) : Store → Type 0 where
    at_once : Between user d d
    answers :
        (o : Operation) (s : Session)
        → IsElse user o
        → Between user d s.db
        → Between user d (perform o s).db
    aside : {e f : Store} → SameAccounts e f → Between user d e → Between user d f

  -- A revocation counts in `s` and removes in `t`: Postgres does not hold its count against others.
  pub data Reach (d : Store) : Store → Type 0 where
    here : Reach d d
    acts : (o : Operation) (s : Session) → Reach d s.db → Reach d (perform o s).db
    overlaps :
        (user : ℕ) (id : String) (s t : Session)
        → Reach d s.db
        → (may_revoke user s).0 ≡ ok tt
        → Between user s.db t.db
        → Reach d (transaction (remove_phone user id) t).1.db
    elsewhere : {e f : Store} → SameAccounts e f → Reach d e → Reach d f

  perform-keeps :
      {P : Store → Type 0}
      → IsKept P
      → (o : Operation)
      → ((user : ℕ) (id : String) → o ≡ revokes user id → Keeps P (revoke_passkey user id))
      → (s : Session) → P s.db
      → P (perform o s).db
  unfolding perform
  perform-keeps k (asks_to_sign_in id) r s = (begin_login-Keeps k w id).at s
  perform-keeps k (signs_in raw clock id q) r s =
      (finish_login-Keeps k.finished c w raw clock id q).at s
  perform-keeps k (mints raw clock label) r s = (mint_enrollment-Keeps k c raw clock label).at s
  perform-keeps k (asks_to_enrol handle id token) r s =
      (begin_enrollment-Keeps k c w handle id token).at s
  perform-keeps k (enrols raw clock id q) r s =
      (finish_enrollment-Keeps k.finished c w raw clock id q).at s
  perform-keeps k (visits clock token) r s = (authenticate-Keeps k c clock token).at s
  perform-keeps k (signs_out token) r s = (sign_out-Keeps k c token).at s
  perform-keeps k (signs_out_everywhere user) r s = (sign_out_everywhere-Keeps k user).at s
  perform-keeps k (revokes user id) r s = (r user id refl).at s

  between-keeps :
      {P : Store → Type 0} (user : ℕ) {d e : Store}
      → IsKept P
      → ((other : ℕ) (id : String) → other ≢ user → Keeps P (revoke_passkey other id))
      → ((x y : Store) → SameAccounts x y → P x → P y)
      → Between user d e
      → P d
      → P e
  between-keeps user k r m at_once h = h
  between-keeps user k r m (answers o s other q) h =
      perform-keeps k o (λ v id same. r v id (other v id same)) s (between-keeps user k r m q h)
  between-keeps user k r m (aside {e} {f} same q) h = m e f same (between-keeps user k r m q h)

  reached-keeps :
      {P : Store → Type 0} {d e : Store}
      → IsKept P
      → ((user : ℕ) (id : String) → Keeps P (revoke_passkey user id))
      → ((x y : Store) → SameAccounts x y → P x → P y)
      → ((user : ℕ) (id : String) (s t : Session)
          → P s.db
          → (may_revoke user s).0 ≡ ok tt
          → Between user s.db t.db
          → P (transaction (remove_phone user id) t).1.db)
      → Reach d e
      → P d
      → P e
  reached-keeps k r m o here h = h
  reached-keeps k r m o (acts p s q) h =
      perform-keeps k p (λ user id _. r user id) s (reached-keeps k r m o q h)
  reached-keeps k r m o (overlaps user id s t q counted between) h =
      o user id s t (reached-keeps k r m o q h) counted between
  reached-keeps k r m o (elsewhere {e} {f} same q) h = m e f same (reached-keeps k r m o q h)

  same-IsCeiled : (x y : Store) → SameAccounts x y → IsCeiled x → IsCeiled y
  same-IsCeiled x y same h = rw same.sessions h

  -- From a store with no sessions, whatever the console is asked, in whatever order and with
  -- whichever statements failing, no session expires later than the ceiling after it was opened,
  -- however often it has been used.
  pub never_outlives_ceiling :
      {d e : Store}
      → d.accounts.sessions ≡ []
      → Reach d e
      → All (λ x. x.expires_at ≤ x.created_at + session_ceiling) e.accounts.sessions
  never_outlives_ceiling none_yet q =
      reached-keeps {P = IsCeiled} IsCeiled-IsKept revoke_passkey-IsCeiled same-IsCeiled
        (λ user id s t h counted between.
          (Keeps-transaction _ (remove_phone-IsCeiled user id)).at t (
            between-keeps user IsCeiled-IsKept (λ v i n. revoke_passkey-IsCeiled v i) same-IsCeiled
              between h))
        q (rw none_yet tt)

  same-IsOpen :
      (least user : ℕ) (x y : Store) → SameAccounts x y → IsOpen least user x → IsOpen least user y
  same-IsOpen least user x y same h = (rw same.passkeys h.0, rw same.passkeys h.1)

  -- What was counted is still there when the passkey goes.
  overlap-IsOpen :
      (user other : ℕ) (id : String) (s t : Session)
      → IsOpen 1 user s.db
      → (may_revoke other s).0 ≡ ok tt
      → Between other s.db t.db
      → IsOpen 1 user (transaction (remove_phone other id) t).1.db
  overlap-IsOpen user other id s t h counted between = go (dec_eq user other)
    where
      many : IsOpen 1 user s.db × (1 < ways_in other s.db.accounts.passkeys)
      many = counted_there user other s h counted

      go : Dec (user ≡ other) → IsOpen 1 user (transaction (remove_phone other id) t).1.db
      go (yes e) =
          let two : IsOpen 2 user s.db = (many.0.0, rw e many.1) in
          let still : IsOpen 2 user t.db =
            between-keeps other (IsOpen-IsKept 2 user)
              (λ v i n. revoke_passkey-IsOpen 2 user v i (λ f. absurd (n (sym f ∙ e))))
              (same-IsOpen 2 user) between two in
          remove_phone-leaves 1 user other id t ((still.0, omega (arith, still.1)), λ f. still.1)
      go (no n) =
          let still : IsOpen 1 user t.db =
            between-keeps other (IsOpen-IsKept 1 user)
              (λ v i m. revoke_passkey-IsOpen 1 user v i (λ f. omega arith)) (same-IsOpen 1 user)
              between h in
          remove_phone-leaves 1 user other id t (still, λ f. absurd (n f))

  -- From a store where no id names two passkeys and an account has a passkey, the account always has
  -- one, so that nobody is locked out: whatever the console is asked, in whatever order and with
  -- whichever statements failing, other requests coming in between the count and the removal of a
  -- revocation too, as long as no two revocations for the same account overlap.
  pub never_locked_out :
      {d e : Store} (user : ℕ)
      → IsSingle d.accounts.passkeys
      → 1 ≤ ways_in user d.accounts.passkeys
      → Reach d e
      → 1 ≤ ways_in user e.accounts.passkeys
  never_locked_out user single open_door q =
      (reached-keeps {P = IsOpen 1 user} (IsOpen-IsKept 1 user)
        (λ v i. revoke_passkey-IsOpen 1 user v i (λ f. omega arith)) (same-IsOpen 1 user)
        (overlap-IsOpen user) q (single, open_door)).1
