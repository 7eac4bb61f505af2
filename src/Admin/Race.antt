-- ===== src/Admin/Race.antt =====
-- Two revocations of internal/admin/session.go that overlap: each has counted before the other removes.
use Prim.Native.String.{String}
use text.Mathlib.Text.{◌==◌ as str_eq}
use text.Mathlib.TextEquality.{eq_iff}
use bealhouse.Prelude.{
  ℕ, ◌+◌, ◌≤◌, ◌≡◌, refl, sym, ap, ◌∙◌, Bool, true, false, not, ◌&&◌, List, [], any, count, keep,
  ◌==◌, arith, if◌then◌else◌,
}
use bealhouse.Prelude.Rows.{count-rest}
use bealhouse.Prelude.Counts.{count-any, any-imply, any-keep}
use bealhouse.Db.Schema.{Store, UserPasskey}
use bealhouse.Db.Session.{
  Action, Outcome, ok, err, denied, Session, transaction, enclosed, round_trip, exec, statement,
  query, raise_if, ◌>>=◌,
}
use bealhouse.Db.Keeps.{ended}
use bealhouse.Db.Accounts.{is_own, remove_passkey, count_passkeys, delete_passkey}
use bealhouse.Db.Devices.{is_from, revoke_where, revoke_sessions_for_passkey}
use bealhouse.Admin.Devices.{may_revoke, remove_phone}
use bealhouse.Admin.WayIn.{owned, ways_in}

abbrev pub quiet : Store → Session
quiet d = record { db = d; fate = [] }

-- The second half of a revocation, alone and with no statement failing.
abbrev pub removal : ℕ → String → Store → Outcome (Unit {0}) × Session
removal user id d = transaction (remove_phone user id) (quiet d)

not_none : (n : ℕ) → 1 ≤ n → (n == 0) ≡ false
not_none n h = ground arith

transaction-quiet :
    (m : Action (Unit {0})) (d e : Store)
    → m (quiet d) ≡ (ok tt, quiet e)
    → transaction m (quiet d) ≡ (ok tt, quiet e)
unfolding transaction enclosed round_trip exec statement ◌>>=◌
transaction-quiet m d e h = ap (λ r. ended d r.0 r.1) h

remove_phone-quiet :
    (user : ℕ) (id : String) (d : Store)
    → any (is_own id user) d.accounts.passkeys ≡ true
    → remove_phone user id (quiet d)
      ≡ (ok tt, quiet (remove_passkey id user (revoke_where (is_from id user) d).1).1)
unfolding statement raise_if ◌>>=◌ remove_phone revoke_sessions_for_passkey delete_passkey
remove_phone-quiet user id d h =
    ap
      (λ x. (
        if x then err denied else ok tt,
        quiet (remove_passkey id user (revoke_where (is_from id user) d).1).1,
      ))
      (not_none (count (is_own id user) d.accounts.passkeys)
        (count-any (is_own id user) d.accounts.passkeys h))

removal-quiet :
    (user : ℕ) (id : String) (d : Store)
    → any (is_own id user) d.accounts.passkeys ≡ true
    → removal user id d
      ≡ (ok tt, quiet (remove_passkey id user (revoke_where (is_from id user) d).1).1)
removal-quiet user id d h = transaction-quiet _ d _ (remove_phone-quiet user id d h)

other_name :
    (user : ℕ) (a b : String) (p : UserPasskey)
    → str_eq a b ≡ false
    → is_own b user p ≡ true
    → (not (is_own a user p) && is_own b user p) ≡ true
other_name user a b p apart h = go (str_eq p.id a) refl (str_eq p.id b) refl h
  where
    go :
        (x : Bool)
        → str_eq p.id a ≡ x
        → (y : Bool) → str_eq p.id b ≡ y
        → (y && owned user p) ≡ true
        → (not (x && owned user p) && (y && owned user p)) ≡ true
    go false e y f k = k
    go true e false f k = cc
    go true e true f k =
        let same : a ≡ b = sym ((eq_iff p.id a).0 e) ∙ (eq_iff p.id b).0 f in
        absurd (ground (arith, (eq_iff a b).1 same, apart))

-- A row that one removal does not take, another finds.
left_for :
    (user : ℕ) (a b : String) (ps : List UserPasskey)
    → str_eq a b ≡ false
    → any (is_own b user) ps ≡ true
    → any (is_own b user) (keep (λ p. not (is_own a user p)) ps) ≡ true
left_for user a b ps apart h =
    any-keep (λ p. not (is_own a user p)) (is_own b user) ps
      (any-imply _ _ (λ p e. other_name user a b p apart e) ps h)

-- The rows that a removal takes are the account's.
taken :
    (user : ℕ) (id : String) (ps : List UserPasskey)
    → any (is_own id user) ps ≡ true
    → ways_in user (keep (λ p. not (is_own id user p)) ps) + 1 ≤ ways_in user ps
taken user id ps h = omega (
  arith,
  count-rest (owned user) (is_own id user) ps,
  count-any (λ p. owned user p && is_own id user p) ps
      (any-imply _ _ (λ p e. both (str_eq p.id id) (owned user p) e) ps h),
)
  where
    both : (x y : Bool) → (x && y) ≡ true → (y && (x && y)) ≡ true
    both true true e = refl
    both true false e = cc
    both false y e = cc

-- The two passkeys of an account are both gone when two revocations, one for each, overlap: both
-- counts see two and refuse neither, each removal succeeds after the other, and the account is left
-- without a passkey. No statement fails on the way.
pub both_are_lost :
    (user : ℕ) (a b : String) (d : Store)
    → str_eq a b ≡ false
    → any (is_own a user) d.accounts.passkeys ≡ true
    → any (is_own b user) d.accounts.passkeys ≡ true
    → ways_in user d.accounts.passkeys ≡ 2
    → ((may_revoke user (quiet d)).0 ≡ ok tt)
      × ((removal user a d).0 ≡ ok tt)
      × ((removal user b (removal user a d).1.db).0 ≡ ok tt)
      × (ways_in user (removal user b (removal user a d).1.db).1.db.accounts.passkeys ≡ 0)
unfolding may_revoke count_passkeys query statement raise_if ◌>>=◌
both_are_lost user a b d apart has_a has_b two =
    let rest = left_for user a b d.accounts.passkeys apart has_b in
    let first = removal-quiet user a d has_a in
    let second =
      removal-quiet user b (remove_passkey a user (revoke_where (is_from a user) d).1).1 rest in
    rw (first, second)
      (
        rw two refl,
        refl,
        refl,
        omega (
          arith,
          two,
          taken user a d.accounts.passkeys has_a,
          taken user b (keep (λ p. not (is_own a user p)) d.accounts.passkeys) rest,
        ),
      )
