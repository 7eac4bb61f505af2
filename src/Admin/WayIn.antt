-- ===== src/Admin/WayIn.antt =====
-- An id names one passkey, and an account that has a passkey keeps one, whatever the console is
-- asked.
use Prim.Native.String.{String}
use text.Mathlib.Text.{◌==◌ as str_eq}
use text.Mathlib.TextEquality.{eq_iff}
use native.Mathlib.Nat.{le_trans}
use native.Mathlib.Decide.{ℕ_discrete as dec_eq}
use bealhouse.Prelude.{
  ℕ, suc, ◌+◌, ◌≤◌, ◌<◌, ◌≡◌, refl, Bool, true, false, not, ◌&&◌, List, [], ◌∷◌, ◌++◌, some, any,
  keep, count, amend, leb, ◌==◌, arith,
}
use bealhouse.Prelude.Rows.{count-append, count-rest, count-le, count-amend, count-none}
use bealhouse.Db.Schema.{Instant, Store, UserPasskey}
use bealhouse.Db.Keeps.{Ensures, Keeps, Keeps-statement, Keeps-exec, Keeps-raise_if}
use bealhouse.Db.Ensures.{
  Ensures-keeps, Ensures-bind, Ensures-statement, Ensures-query, Ensures-raise_if, Keeps-ensured,
  transaction-leaves, Ensures-imply,
}
use bealhouse.Db.Accounts.{
  create_user, user_constraints, create_passkey, passkey_constraints, new_passkey,
  update_passkey_after_use, is_own, delete_passkey, remove_passkey, count_passkeys,
  CreatePasskeyParams, put_passkeys,
}
use bealhouse.Db.Enrollments.{
  release_enrollment, consume, create_enrollment, enrollment_constraints, claim_enrollment,
  create_ceremony, ceremony_constraints,
}
use bealhouse.Db.Devices.{
  create_session, session_constraints, touch_session, revoke_session, revoke_all_sessions_for_user,
  revoke_sessions_for_passkey, sweep_expired_auth,
}
use bealhouse.Db.Session.{Session, transaction}
use bealhouse.Admin.Devices.{may_revoke, remove_phone, revoke_passkey}
use bealhouse.Admin.Kept.{IsFinished, IsKept}
use bealhouse.Admin.Tables.{Keeps-constrained, claim_row-cases}

abbrev pub named : String → UserPasskey → Bool
named id p = str_eq p.id id

abbrev pub owned : ℕ → UserPasskey → Bool
owned user p = p.user_id == user

-- The passkeys of an account.
abbrev pub ways_in : ℕ → List UserPasskey → ℕ
ways_in user ps = count (owned user) ps

-- The primary key.
abbrev pub IsSingle : List UserPasskey → Type 0
IsSingle ps = (id : String) → count (named id) ps ≤ 1

-- The account has `least` passkeys or more.
abbrev pub IsOpen : ℕ → ℕ → Store → Type 0
IsOpen least user d = IsSingle d.accounts.passkeys × (least ≤ ways_in user d.accounts.passkeys)

-- One more, if it is this account that loses one.
abbrev pub HasSpare : ℕ → ℕ → ℕ → Store → Type 0
HasSpare least user other d =
    IsOpen least user d × (user ≡ other → least < ways_in user d.accounts.passkeys)

added-IsSingle :
    (arg : CreatePasskeyParams) (now : Instant) (ps : List UserPasskey)
    → any (named arg.id) ps ≡ false
    → IsSingle ps
    → IsSingle (ps ++ (new_passkey arg now ∷ []))
added-IsSingle arg now ps h k id = ground (
  arith,
  count-append (named id) ps (new_passkey arg now ∷ []),
  k id,
  eq_iff arg.id id,
  count-none (named arg.id) ps h,
)

-- A use changes neither the id nor the owner.
used : String → ℕ → UserPasskey → UserPasskey
used credential now p = record p { credential = credential; last_used_at = some now }

used-IsOpen :
    (least user : ℕ) (id credential : String) (d : Store)
    → IsOpen least user d
    → IsOpen least user
        (put_passkeys (amend (named id) (used credential d.now) d.accounts.passkeys) d)
unfolding used
used-IsOpen least user id credential d (single, open_door) =
    let same = λ (other : String).
      count-amend (named other) (named id) (used credential d.now) d.accounts.passkeys
        (λ p. refl) in
    let still =
      count-amend (owned user) (named id) (used credential d.now) d.accounts.passkeys (λ p. refl) in
    (λ other. rw (same other) (single other), rw still open_door)

rest-IsSingle :
    (q : UserPasskey → Bool) (ps : List UserPasskey)
    → IsSingle ps
    → IsSingle (keep (λ p. not (q p)) ps)
rest-IsSingle q ps k id = omega (arith, count-rest (named id) q ps, k id)

-- Of the rows of an account the deletion takes one at most, and none of another account's.
taken_le_one :
    (user other : ℕ) (id : String) (ps : List UserPasskey)
    → IsSingle ps
    → count (λ p. owned user p && is_own id other p) ps ≤ 1
taken_le_one user other id ps k =
    le_trans (count-le _ (named id) ps (λ p h. both (owned user p) (named id p) (owned other p) h))
      (k id)
  where
    both : (a b c : Bool) → (a && (b && c)) ≡ true → b ≡ true
    both true true c h = refl
    both true false c h = cc
    both false b c h = cc

taken_else :
    (user other : ℕ) (id : String) (ps : List UserPasskey)
    → (user ≡ other → ⊥)
    → count (λ p. owned user p && is_own id other p) ps ≡ 0
taken_else user other id [] h = refl
taken_else user other id (p ∷ ps) h = ground (arith, taken_else user other id ps h, h)

removed-IsOpen :
    (least user other : ℕ) (id : String) (d : Store)
    → HasSpare least user other d
    → IsOpen least user (remove_passkey id other d).1
removed-IsOpen least user other id d ((single, open_door), spare) =
    (rest-IsSingle (is_own id other) d.accounts.passkeys single, left (dec_eq user other))
  where
    kept :
        count (owned user) (keep (λ p. not (is_own id other p)) d.accounts.passkeys)
          + count (λ p. owned user p && is_own id other p) d.accounts.passkeys
        ≡ ways_in user d.accounts.passkeys
    kept = count-rest (owned user) (is_own id other) d.accounts.passkeys

    left : Dec (user ≡ other) → least ≤ ways_in user (remove_passkey id other d).1.accounts.passkeys
    left (yes e) =
        omega (arith, kept, taken_le_one user other id d.accounts.passkeys single, spare e)
    left (no e) = omega (arith, kept, taken_else user other id d.accounts.passkeys e)

remove_phone-IsOpen :
    (least user other : ℕ) (id : String)
    → Ensures (HasSpare least user other) (remove_phone other id) (λ _. IsOpen least user)
unfolding remove_phone revoke_sessions_for_passkey delete_passkey
remove_phone-IsOpen least user other id =
    Ensures-bind _ _ (λ _. HasSpare least user other) _
      (Ensures-keeps _ (Keeps-statement _ (λ d h. h)))
      (λ m.
        Ensures-bind _ _ (λ _. IsOpen least user) _
          (Ensures-statement _ (λ _. IsOpen least user)
            (λ d h. removed-IsOpen least user other id d h))
          (λ removed. Ensures-keeps _ (Keeps-raise_if _ _)))

-- The second half of a revocation, of whichever account.
pub remove_phone-leaves :
    (least user other : ℕ) (id : String) (s : Session)
    → HasSpare least user other s.db
    → IsOpen least user (transaction (remove_phone other id) s).1.db
remove_phone-leaves least user other id s h =
    transaction-leaves _ (λ d k. k.0) (remove_phone-IsOpen least user other id) s h

-- What the first half has seen.
pub may_revoke-spare :
    (P : Store → Type 0) (other : ℕ)
    → Ensures P (may_revoke other) (λ _ d. P d × (1 < ways_in other d.accounts.passkeys))
unfolding may_revoke count_passkeys
may_revoke-spare P other =
    Ensures-bind _ _ (λ n d. P d × (n ≡ ways_in other d.accounts.passkeys)) _ (Ensures-query _)
      (λ n. Ensures-raise_if _ _ _ (λ e d h. (h.0, more n h.1 e)))
  where
    more : (n : ℕ) {m : ℕ} → n ≡ m → leb n 1 ≡ false → 1 < m
    more n e f = ground arith

pub revoke_passkey-IsOpen :
    (least user other : ℕ) (id : String)
    → (user ≡ other → least ≤ 1)
    → Keeps (IsOpen least user) (revoke_passkey other id)
unfolding revoke_passkey
revoke_passkey-IsOpen least user other id few = Keeps-ensured _ (
    Ensures-bind _ _ (λ _. HasSpare least user other) _
      (Ensures-imply _ _ _ (λ a d h. (h.0, λ e. le_trans (s_few e) (rw e h.1)))
        (may_revoke-spare (IsOpen least user) other))
      (λ _. remove_phone-IsOpen least user other id))
  where
    s_few : user ≡ other → suc least ≤ 2
    s_few e = omega (arith, few e)

IsOpen-IsFinished : (least user : ℕ) → IsFinished (IsOpen least user)
unfolding create_user create_passkey update_passkey_after_use release_enrollment consume
    create_session used
IsOpen-IsFinished least user = record {
  writes = record {
    makes = λ arg. Keeps-constrained (IsOpen least user) (user_constraints arg) _ (λ d ps h. h);
    enrols = λ arg. Keeps-constrained (IsOpen least user) (passkey_constraints arg) _ (λ d ps h. (
      added-IsSingle arg d.now d.accounts.passkeys ps.1.0 h.0,
      grown arg d.now d.accounts.passkeys h.1,
    ));
    opens =
        λ arg e. Keeps-constrained (IsOpen least user) (session_constraints arg) _ (λ d ps h. h);
  };
  uses = λ id credential. Keeps-exec _ (used-IsOpen least user id credential);
  releases = λ hash. Keeps-exec _ (λ d h. h);
  consumes = λ id. Keeps-statement _ (λ d h. h);
}
  where
    grown :
        (arg : CreatePasskeyParams) (now : Instant) (ps : List UserPasskey)
        → least ≤ ways_in user ps
        → least ≤ ways_in user (ps ++ (new_passkey arg now ∷ []))
    grown arg now ps h = omega (arith, count-append (owned user) ps (new_passkey arg now ∷ []))

pub IsOpen-IsKept : (least user : ℕ) → IsKept (IsOpen least user)
unfolding create_enrollment claim_enrollment create_ceremony touch_session revoke_session
    revoke_all_sessions_for_user sweep_expired_auth
IsOpen-IsKept least user = record {
  finished = IsOpen-IsFinished least user;
  invites =
      λ arg. Keeps-constrained (IsOpen least user) (enrollment_constraints arg) _ (λ d ps h. h);
  claims =
      λ hash. Keeps-statement _ (λ d h. claim_row-cases (λ r. IsOpen least user) hash d h (λ e. h));
  challenges =
      λ arg. Keeps-constrained (IsOpen least user) (ceremony_constraints arg) _ (λ d ps h. h);
  touches = λ hash. Keeps-exec _ (λ d h. h);
  revokes = λ hash. Keeps-statement _ (λ d h. h);
  revokes_all = λ id. Keeps-statement _ (λ d h. h);
  sweeps = Keeps-exec _ (λ d h. h);
}
