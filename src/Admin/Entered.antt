-- ===== src/Admin/Entered.antt =====
-- Who is in: the token that a sign-in hands out lets its holder in.
use Prim.Native.String.{String}
use text.Mathlib.Text.{◌==◌ as str_eq}
use text.Mathlib.TextPositions.{eq_refl}
use bealhouse.Prelude.{
  ℕ, ◌+◌, ◌-◌, ◌<◌, ◌≡◌, refl, sym, ◌∙◌, Bool, true, false, not, ◌&&◌, List, [], ◌∷◌, Option, some,
  any, first, ltb, ◌==◌, arith, if◌then◌else◌,
}
use bealhouse.Prelude.Rows.{All-any, All-imply, first-append}
use bealhouse.Prelude.Text.{trim_space}
use bealhouse.Db.Schema.{Store, Instant, User, UserSession, WebauthnCeremony}
use bealhouse.Db.Session.{Action, ok, Session, raise_if, pure, query, statement, ◌>>=◌}
use bealhouse.Db.Keeps.{Ensures, Keeps-statement, Keeps-exec}
use bealhouse.Db.Ensures.{
  Ensures-bind, Ensures-statement, Ensures-raise, Ensures-transaction, Ensures-keeps, ensured,
}
use bealhouse.Db.Accounts.{
  is_user, create_user, user_constraints, create_passkey, passkey_constraints,
  update_passkey_after_use,
}
use bealhouse.Db.Enrollments.{release_enrollment, consume}
use bealhouse.Db.Devices.{
  create_session, CreateSessionParams, session_constraints, session_of, has_token, is_live,
  LiveSession, live_session, get_live_session, join_user,
}
use bealhouse.Admin.{
  touch_interval, best_effort, Crypto, Webauthn, Request, Identity, Account, Credential, hash_token,
  new_token, session_lifetime,
}
use bealhouse.Admin.Devices.{SignedIn, open_session, resolved, authenticate}
use bealhouse.Admin.Login.{signed, answered, login_of, finish_login}
use bealhouse.Admin.Invited.{Ensures-or_else}
use bealhouse.Admin.Out.{later}
use bealhouse.Admin.Tables.{Returns-constrained, Keeps-constrained}
use bealhouse.Admin.Kept.{IsFinished, or_denied-Keeps, named-Keeps, consume_ceremony-Keeps}

-- The row that a token is read by at a time.
abbrev row_at : String → Instant → Store → Option UserSession
row_at hash now d = first (λ x. has_token hash x && is_live now x) d.accounts.sessions

-- A session of a user and a passkey, live until its lifetime is over.
record IsIn (hash : String) (user : ℕ) (passkey : String) (since : Instant) (d : Store)
    : Type 0 where
  is_there : is_user user d ≡ true
  row : UserSession
  found : (now : Instant) → now < since + session_lifetime → row_at hash now d ≡ some row
  of_user : row.user_id ≡ user
  of_passkey : row.passkey_id ≡ some passkey

created :
    (arg : CreateSessionParams) (now : Instant)
    → arg.lifetime_seconds ≡ session_lifetime
    → Ensures
        (λ d. d.now ≡ now)
        (create_session arg)
        (λ _. IsIn arg.token_hash arg.user_id arg.passkey_id now)
unfolding create_session
created arg now e = Ensures-statement _ Q (λ d t.
    Returns-constrained Q (session_constraints arg d) d _ (λ ps. record {
      is_there = passed _ ps.1.1.0;
      row = session_of arg d.now;
      found = λ at lt.
          first-append (λ x. has_token arg.token_hash x && is_live at x) d.accounts.sessions
            (session_of arg d.now)
            (All-imply (λ x. has_token arg.token_hash x ≡ false) _ _ (λ x k. no_token _ _ k)
              (All-any (has_token arg.token_hash) d.accounts.sessions ps.1.0))
            (live_token at (d.now + arg.lifetime_seconds) (eq_refl arg.token_hash) (omega arith));
      of_user = refl;
      of_passkey = refl;
    }))
  where
    Q : Unit {0} → Store → Type 0
    Q done = IsIn arg.token_hash arg.user_id arg.passkey_id now

    passed : (b : Bool) → not b ≡ false → b ≡ true
    passed true h = refl
    passed false h = cc

    no_token : (a b : Bool) → a ≡ false → (a && b) ≡ false
    no_token true b h = cc
    no_token false b h = refl

    live_token :
        (at expires : ℕ) {b : Bool}
        → b ≡ true
        → at < expires
        → (b && (true && ltb at expires)) ≡ true
    live_token at expires h lt = rw h (ground arith)

at-IsFinished : (now : Instant) → IsFinished (λ d. d.now ≡ now)
unfolding create_user create_passkey update_passkey_after_use release_enrollment consume
    create_session
at-IsFinished now = record {
  writes = record {
    makes = λ arg. Keeps-constrained (λ d. d.now ≡ now) (user_constraints arg) _ (λ d ps h. h);
    enrols = λ arg. Keeps-constrained (λ d. d.now ≡ now) (passkey_constraints arg) _ (λ d ps h. h);
    opens = λ arg e. Keeps-constrained (λ d. d.now ≡ now) (session_constraints arg) _ (λ d ps h. h);
  };
  uses = λ id credential. Keeps-exec _ (λ d h. h);
  releases = λ hash. Keeps-exec _ (λ d h. h);
  consumes = λ id. Keeps-statement _ (λ d h. h);
}

-- What a sign-in hands out, and what it leaves.
record Admits (c : Crypto) (raw : String) (since : Instant) (out : SignedIn × Identity) (d : Store)
    : Type 0 where
  token : out.0.token ≡ c.encode64 raw
  key : String
  of_key : out.1.passkey_id ≡ some key
  is_in : IsIn (c.sha256 raw) out.1.user_id key since d

module _ (c : Crypto) where
  open_session-IsIn :
      (raw : String) (clock : Instant) (user : ℕ) (passkey agent : String) (now : Instant)
      → Ensures
          (λ d. d.now ≡ now)
          (open_session c raw clock user passkey agent)
          (λ out d. (out.token ≡ c.encode64 raw) × IsIn (c.sha256 raw) user passkey now d)
  unfolding open_session new_token pure
  open_session-IsIn raw clock user passkey agent now =
      Ensures-bind _ _ (λ _. IsIn (c.sha256 raw) user passkey now) _ (created _ now refl)
        (λ _. record { at = λ s h. (refl, h) })

  module _ (w : Webauthn) where
    signed-Admits :
        (raw : String) (clock : Instant) (acct : Account) (credential : Credential) (r : Request)
        (now : Instant)
        → Ensures (λ d. d.now ≡ now) (signed c w raw clock acct credential r) (Admits c raw now)
    unfolding signed pure
    signed-Admits raw clock acct credential r now = Ensures-transaction _ (Admits c raw now) (
        Ensures-bind _ _ (λ _ d. d.now ≡ now) _ (Ensures-keeps _ ((at-IsFinished now).uses _ _))
          (λ _.
            Ensures-bind _ _
              (λ out d.
                (out.token ≡ c.encode64 raw) × IsIn (c.sha256 raw) acct.id credential.id now d)
              _ (open_session-IsIn raw clock acct.id credential.id r.user_agent now)
              (λ out. record {
                at = λ s h. record { token = h.0; key = credential.id; of_key = refl; is_in = h.1 };
              })))

    login_of-Admits :
        (raw : String) (clock : Instant) (r : Request) (now : Instant) (cer : WebauthnCeremony)
        → Ensures (λ d. d.now ≡ now) (login_of c w raw clock r cer) (Admits c raw now)
    unfolding login_of answered
    login_of-Admits raw clock r now cer =
        Ensures-or_else (w.decode_challenge cer.session) _ _ (Ensures-raise _ _) (λ session.
          Ensures-or_else (w.asserted session r) _ _ (Ensures-raise _ _) (λ said.
            Ensures-bind _ _ (λ acct d. d.now ≡ now) _
              (Ensures-keeps _ (or_denied-Keeps _ (named-Keeps w said.1)))
              (λ acct.
                Ensures-or_else (w.validate acct session r) _ _ (Ensures-raise _ _)
                  (λ credential. signed-Admits raw clock acct credential r now))))

    finish_login-Admits :
        (raw : String) (clock : Instant) (id : String) (r : Request) (now : Instant)
        → Ensures (λ d. d.now ≡ now) (finish_login c w raw clock id r) (Admits c raw now)
    unfolding finish_login
    finish_login-Admits raw clock id r now =
        Ensures-bind _ _ (λ cer d. d.now ≡ now) _
          (Ensures-keeps _ (consume_ceremony-Keeps (at-IsFinished now).consumes id _))
          (login_of-Admits raw clock r now)

  -- The touch of a session, should it fail, refuses nobody.
  touched_or_not :
      (b : Bool) (m : Action (Unit {0})) (who : Identity) (s : Session)
      → (((if b then best_effort m else pure tt) >>= (λ _. pure who)) s).0 ≡ ok who
  unfolding ◌>>=◌ best_effort pure
  touched_or_not true m who s = refl
  touched_or_not false m who s = refl

  abbrev holder : LiveSession → Identity
  holder row = record {
    user_id = row.session.user_id;
    name = row.user.name;
    passkey_id = row.session.passkey_id;
  }

  resolved-some :
      (clock : Instant) (hash : String) (o : Option LiveSession) (row : LiveSession) (s : Session)
      → o ≡ some row
      → (resolved c clock hash o s).0 ≡ ok (holder row)
  unfolding resolved
  resolved-some clock hash o row s e =
      rw e (touched_or_not (ltb touch_interval (clock - row.session.last_seen_at)) _ (holder row) s)

  authenticate-some :
      (clock now : Instant) (token : String) (d : Store) (row : LiveSession)
      → str_eq token "" ≡ false
      → live_session (hash_token c token) (record d { now = now }) ≡ some row
      → (authenticate c clock token (later d now [])).0 ≡ ok (holder row)
  unfolding authenticate get_live_session query statement raise_if ◌>>=◌
  authenticate-some clock now token d row named live =
      rw named (resolved-some clock (hash_token c token) _ row (later d now []) live)

  -- The user that the foreign key names.
  row_of_user :
      (us : List User) (user : ℕ)
      → any (λ u. u.id == user) us ≡ true
      → (u : User) × (first (λ v. v.id == user) us ≡ some u)
  row_of_user [] user h = absurd (cc)
  row_of_user (u ∷ us) user h = go (u.id == user) refl h (row_of_user us user)
    where
      rest : Type 0
      rest = (v : User) × (first (λ x. x.id == user) us ≡ some v)

      go :
          (b : Bool)
          → (u.id == user) ≡ b
          → (if b then true else any (λ v. v.id == user) us) ≡ true
          → (any (λ v. v.id == user) us ≡ true → rest)
          → (v : User) × (first (λ x. x.id == user) (u ∷ us) ≡ some v)
      go true e k again = (u, rw e refl)
      go false e k again = let (v, f) = again k in (v, rw e f)

  joined_row :
      (us : List User) (o : Option UserSession) (x : UserSession) (u : User)
      → o ≡ some x
      → first (λ v. v.id == x.user_id) us ≡ some u
      → join_user us o ≡ some (record { session = x; user = u })
  joined_row us o x u e f = rw (e, f, join_user) refl

  -- After a sign-in succeeds, the token that it hands out, if the encoding of its bytes decodes to
  -- them and is not empty, lets its holder in as that account and from that passkey, until the
  -- lifetime of the session is over.
  pub sign_in_lets_in :
      (w : Webauthn) (raw : String) (clock : Instant) (id : String) (r : Request) (s : Session)
      (out : SignedIn × Identity)
      → (finish_login c w raw clock id r s).0 ≡ ok out
      → c.decode64 (trim_space (c.encode64 raw)) ≡ some raw
      → str_eq (c.encode64 raw) "" ≡ false
      → (clock' now : Instant) → now < s.db.now + session_lifetime
      → (who : Identity) × ((authenticate c clock' out.0.token
            (later (finish_login c w raw clock id r s).1.db now [])).0
          ≡ ok who)
        × (who.user_id ≡ out.1.user_id)
        × (who.passkey_id ≡ out.1.passkey_id)
  unfolding hash_token
  sign_in_lets_in w raw clock id r s out e faithful named clock' now lt =
      let a = ensured (finish_login-Admits w raw clock id r s.db.now) s out refl e in
      let d = (finish_login c w raw clock id r s).1.db in
      let x = a.is_in.row in
      let (u, f) = row_of_user d.accounts.users x.user_id (rw a.is_in.of_user a.is_in.is_there) in
      let hashed : hash_token c out.0.token ≡ c.sha256 raw =
        rw (a.token, faithful, hash_token) refl in
      let row : LiveSession = record { session = x; user = u } in
      let live : live_session (hash_token c out.0.token) (record d { now = now }) ≡ some row =
        rw hashed (joined_row d.accounts.users _ x u (a.is_in.found now lt) f) in
      (
        holder row,
        authenticate-some clock' now out.0.token d row (rw a.token named) live,
        a.is_in.of_user,
        a.is_in.of_passkey ∙ sym a.of_key,
      )
