-- ===== src/Admin/Out.antt =====
-- Who is out: a token whose session is revoked lets nobody in.
use Prim.Native.String.{String}
use text.Mathlib.Text.{◌==◌ as str_eq}
use bealhouse.Prelude.{ℕ, ◌≡◌, refl, Bool, true, false, ◌&&◌, List, Option, none, some, All, ◌==◌}
use bealhouse.Prelude.Rows.{All-amend, All-All, All-imply, first-none}
use bealhouse.Db.Schema.{Store, UserSession, Instant}
use bealhouse.Db.Session.{ok, Fault, Session, succeeded}
use bealhouse.Db.Keeps.{Ensures, Keeps-bind, Keeps-query, Keeps-raise_if}
use bealhouse.Db.Ensures.{
  Ensures-keeps, Ensures-bind, Ensures-statement, Ensures-query, Ensures-raise_if, Ensures-raise,
  Ensures-transaction, Ensures-pure, ensured, refused,
}
use bealhouse.Db.Accounts.{count_passkeys, delete_passkey, forget, same_bytes}
use bealhouse.Db.Enrollments.{is_unspent}
use bealhouse.Db.Devices.{
  has_token, is_live, is_from, revoked, revoke_where, revoke_session, revoke_sessions_for_passkey,
  revoke_all_sessions_for_user, LiveSession, live_session, get_live_session,
}
use bealhouse.Admin.{Crypto, hash_token}
use bealhouse.Admin.Devices.{
  authenticate, resolved, may_revoke, remove_phone, revoke_passkey, sign_out, sign_out_everywhere,
}

-- The sessions of a token pass a test.
abbrev pub Comes : (UserSession → Bool) → String → Store → Type 0
Comes test hash d = All (λ x. has_token hash x ≡ true → test x ≡ true) d.accounts.sessions

abbrev Struck : String → UserSession → Type 0
Struck hash x = has_token hash x ≡ true → is_unspent x.revoked_at ≡ false

abbrev IsStruck : String → Store → Type 0
IsStruck hash d = All (Struck hash) d.accounts.sessions

revoke_where-IsStruck :
    (test : UserSession → Bool) (hash : String) (d : Store)
    → Comes test hash d
    → IsStruck hash (revoke_where test d).1
revoke_where-IsStruck test hash d h =
    All-amend _ (Struck hash) (λ x. test x && is_unspent x.revoked_at) (revoked d.now)
      d.accounts.sessions (λ x hx e t. refl) (λ x hx e t. missed (test x) _ (hx t) e) h
  where
    missed : (a b : Bool) → a ≡ true → (a && b) ≡ false → b ≡ false
    missed true b p q = q
    missed false b p q = cc

forget_key : UserSession → UserSession
forget_key x = record x { passkey_id = none }

forget-IsStruck :
    (gone : Bool) (id hash : String) (xs : List UserSession)
    → All (Struck hash) xs
    → All (Struck hash) (forget gone id xs)
unfolding forget_key
forget-IsStruck true id hash xs h =
    All-amend (Struck hash) (Struck hash) (λ x. same_bytes id x.passkey_id) forget_key xs
      (λ x hx e. hx) (λ x hx e. hx) h
forget-IsStruck false id hash xs h = h

dead :
    (hash : String) (now : Instant) (x : UserSession)
    → Struck hash x
    → (has_token hash x && is_live now x) ≡ false
dead hash now x h = go (has_token hash x) h
  where
    go : (a : Bool) → (a ≡ true → is_unspent x.revoked_at ≡ false) → (a && is_live now x) ≡ false
    go true k = rw (k refl) refl
    go false k = refl

no_row : (hash : String) (d : Store) → IsStruck hash d → live_session hash d ≡ none
no_row hash d h =
    rw
      (first-none (λ x. has_token hash x && is_live d.now x) d.accounts.sessions
        (All-imply _ _ _ (dead hash d.now) h))
      refl

authenticate-IsStruck :
    (c : Crypto) (clock : Instant) (token : String)
    → Ensures (IsStruck (hash_token c token)) (authenticate c clock token) (λ who d. ⊥)
unfolding authenticate get_live_session resolved
authenticate-IsStruck c clock token =
    Ensures-bind _ _ (λ _. IsStruck (hash_token c token)) _ (Ensures-keeps _ (Keeps-raise_if _ _))
      (λ _. Ensures-bind _ _ _ _ (Ensures-query _) (λ row. turned row))
  where
    none_there : (row : LiveSession) {o : Option LiveSession} → some row ≡ o → o ≡ none → ⊥
    none_there row e f = cc

    turned :
        (row : Option LiveSession)
        → Ensures
            (λ d. IsStruck (hash_token c token) d × (row ≡ live_session (hash_token c token) d))
            (resolved c clock (hash_token c token) row)
            (λ who d. ⊥)
    turned none = Ensures-raise _ _
    turned (some row) = record {
      at = λ s h. absurd (none_there row h.1 (no_row (hash_token c token) s.db h.0));
    }

-- The same, at a later time and with any of its statements failing.
abbrev pub later : Store → Instant → List (Option Fault) → Session
later d now fate = record { db = record d { now = now }; fate = fate }

turned_away :
    (c : Crypto) (clock : Instant) (token : String) (d : Store) (now : Instant)
    (fate : List (Option Fault))
    → IsStruck (hash_token c token) d
    → succeeded (authenticate c clock token (later d now fate)).0 ≡ false
turned_away c clock token d now fate h =
    refused (authenticate-IsStruck c clock token) (later d now fate) h

remove_phone-IsStruck :
    (hash id : String) (user : ℕ)
    → Ensures (Comes (is_from id user) hash) (remove_phone user id) (λ _. IsStruck hash)
unfolding remove_phone revoke_sessions_for_passkey delete_passkey
remove_phone-IsStruck hash id user =
    Ensures-bind _ _ (λ _. IsStruck hash) _
      (Ensures-statement _ (λ _. IsStruck hash) (revoke_where-IsStruck _ hash))
      (λ m.
        Ensures-bind _ _ (λ _. IsStruck hash) _
          (Ensures-statement _ (λ _. IsStruck hash)
            (λ d h. forget-IsStruck _ id hash d.accounts.sessions h))
          (λ removed. Ensures-keeps _ (Keeps-raise_if _ _)))

revoke_passkey-IsStruck :
    (hash id : String) (user : ℕ)
    → Ensures (Comes (is_from id user) hash) (revoke_passkey user id) (λ _. IsStruck hash)
unfolding revoke_passkey may_revoke count_passkeys
revoke_passkey-IsStruck hash id user = Ensures-transaction _ _ (
    Ensures-bind _ _ (λ _. Comes (is_from id user) hash) _
      (Ensures-keeps _ (Keeps-bind _ _ (Keeps-query _) (λ n. Keeps-raise_if _ _)))
      (λ _. remove_phone-IsStruck hash id user))

sign_out-IsStruck :
    (c : Crypto) (token : String)
    → str_eq token "" ≡ false
    → Ensures (λ d. Unit) (sign_out c token) (λ _. IsStruck (hash_token c token))
unfolding sign_out revoke_session
sign_out-IsStruck c token named = rw named (
    Ensures-bind _ _ (λ _. IsStruck (hash_token c token)) _
      (Ensures-statement _ (λ _. IsStruck (hash_token c token))
        (λ d _. revoke_where-IsStruck _ _ d (All-All _ _ (λ x e. e))))
      (λ _. Ensures-pure (λ _. IsStruck (hash_token c token)) tt))

sign_out_everywhere-IsStruck :
    (hash : String) (user : ℕ)
    → Ensures (Comes (λ x. x.user_id == user) hash) (sign_out_everywhere user) (λ _. IsStruck hash)
unfolding sign_out_everywhere revoke_all_sessions_for_user
sign_out_everywhere-IsStruck hash user =
    Ensures-bind _ _ (λ _. IsStruck hash) _
      (Ensures-statement _ (λ _. IsStruck hash) (revoke_where-IsStruck _ hash))
      (λ _. Ensures-pure (λ _. IsStruck hash) tt)

-- After a passkey of an account is revoked with success, a token whose sessions were opened from
-- that passkey of that account lets nobody in, at any time and whichever statements fail.
pub revoked_is_out :
    (c : Crypto) (user : ℕ) (id token : String) (s : Session)
    → All
        (λ x. has_token (hash_token c token) x ≡ true → is_from id user x ≡ true)
        s.db.accounts.sessions
    → (revoke_passkey user id s).0 ≡ ok tt
    → (clock now : Instant) (fate : List (Option Fault))
    → succeeded (authenticate c clock token (later (revoke_passkey user id s).1.db now fate)).0
      ≡ false
revoked_is_out c user id token s h e clock now fate =
    turned_away c clock token (revoke_passkey user id s).1.db now fate
      (ensured (revoke_passkey-IsStruck (hash_token c token) id user) s tt h e)

nobody :
    (c : Crypto) (clock : Instant) (token : String)
    → str_eq token "" ≡ true
    → Ensures (λ d. Unit) (authenticate c clock token) (λ who d. ⊥)
unfolding authenticate
nobody c clock token empty =
    Ensures-bind _ _ (λ _ d. ⊥) _ (Ensures-raise_if _ _ (λ _ d. ⊥) (λ e d h. absurd (cc)))
      (λ _. record { at = λ s h. absurd h })

-- After a sign-out that succeeds the token lets nobody in, at any time and whichever statements fail.
pub signed_out_is_out :
    (c : Crypto) (token : String) (s : Session)
    → (sign_out c token s).0 ≡ ok tt
    → (clock now : Instant) (fate : List (Option Fault))
    → succeeded (authenticate c clock token (later (sign_out c token s).1.db now fate)).0 ≡ false
signed_out_is_out c token s e clock now fate = one (str_eq token "") refl
  where
    one :
        (b : Bool)
        → str_eq token "" ≡ b
        → succeeded (authenticate c clock token (later (sign_out c token s).1.db now fate)).0
          ≡ false
    one true empty =
        refused (nobody c clock token empty) (later (sign_out c token s).1.db now fate) tt
    one false named =
        turned_away c clock token (sign_out c token s).1.db now fate
          (ensured (sign_out-IsStruck c token named) s tt tt e)

-- After an account is signed out everywhere with success, no token of its sessions lets anybody in,
-- at any time and whichever statements fail.
pub everyone_is_out :
    (c : Crypto) (user : ℕ) (token : String) (s : Session)
    → All
        (λ x. has_token (hash_token c token) x ≡ true → (x.user_id == user) ≡ true)
        s.db.accounts.sessions
    → (sign_out_everywhere user s).0 ≡ ok tt
    → (clock now : Instant) (fate : List (Option Fault))
    → succeeded (authenticate c clock token (later (sign_out_everywhere user s).1.db now fate)).0
      ≡ false
everyone_is_out c user token s h e clock now fate =
    turned_away c clock token (sign_out_everywhere user s).1.db now fate
      (ensured (sign_out_everywhere-IsStruck (hash_token c token) user) s tt h e)
