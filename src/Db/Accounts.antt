-- ===== src/Db/Accounts.antt =====
-- The statements of internal/db/gen/admin.sql.go on users and passkeys, with the constraints of
-- internal/db/migrations/00013_admin_auth.sql. `none` is pgx.ErrNoRows.
use Prim.Native.String.{String}
use text.Mathlib.Text.{◌==◌ as str_eq}
use bealhouse.Prelude.{
  ℕ, ◌+◌, Bool, true, false, not, ◌&&◌, ◌||◌, List, [], ◌∷◌, ◌++◌, Option, none, some, any, keep,
  first, amend, count, ltb, leb, ◌==◌, if◌then◌else◌,
}
use bealhouse.Prelude.Text.{count_chars}
use bealhouse.Db.Schema.{
  Instant, User, UserPasskey, UserSession, UserEnrollment, WebauthnCeremony, Store,
}
use bealhouse.Db.Session.{
  Action, Outcome, ok, Error, constrained, unique_violation, check_violation, foreign_key_violation,
  statement, query, exec,
}

-- `octet_length`
abbrev pub octets : String → ℕ
octets s = count_chars (λ c. true) s

-- `btrim(label, E' \t\r\n') <> ''`
abbrev pub is_present : String → Bool
is_present s = ltb 0 (count_chars (λ c. not ((c == 32) || (c == 9) || (c == 13) || (c == 10))) s)

abbrev pub same_bytes : String → Option String → Bool
same_bytes s none = false
same_bytes s (some t) = str_eq t s

abbrev pub is_user : ℕ → Store → Bool
is_user id d = any (λ u. u.id == id) d.accounts.users

-- A foreign key to `users` that may be NULL.
abbrev pub is_account : Option ℕ → Store → Bool
is_account none d = true
is_account (some id) d = is_user id d

abbrev pub put_users : List User → Store → Store
put_users us d = record d { accounts = record d.accounts { users = us } }

abbrev pub put_passkeys : List UserPasskey → Store → Store
put_passkeys ps d = record d { accounts = record d.accounts { passkeys = ps } }

abbrev pub put_enrollments : List UserEnrollment → Store → Store
put_enrollments es d = record d { accounts = record d.accounts { enrollments = es } }

abbrev pub put_ceremonies : List WebauthnCeremony → Store → Store
put_ceremonies cs d = record d { accounts = record d.accounts { ceremonies = cs } }

-- Users

pub record CreateUserParams : Type 0 where
  pub handle : String
  pub name : String

abbrev pub user_constraints : CreateUserParams → Store → List (Bool × Error)
user_constraints arg d =
    (
      not (leb 16 (octets arg.handle) && leb (octets arg.handle) 64 && is_present arg.name),
      check_violation,
    )
    ∷ (any (λ v. str_eq v.handle arg.handle) d.accounts.users, unique_violation)
    ∷ []

abbrev pub new_user : CreateUserParams → Store → User
new_user arg d = record { id = d.next_id; handle = arg.handle; name = arg.name; created_at = d.now }

abbrev pub add_user : User → Store → Store
add_user u d = record d {
  next_id = d.next_id + 1;
  accounts = record d.accounts { users = d.accounts.users ++ (u ∷ []) };
}

abbrev pub insert_user : CreateUserParams → Store → Outcome User × Store
insert_user arg d =
    constrained (user_constraints arg d) d (ok (new_user arg d), add_user (new_user arg d) d)

-- `CreateUser`
unfoldable pub create_user : CreateUserParams → Action User
create_user arg = statement (insert_user arg)

-- `GetUser`
unfoldable pub get_user : ℕ → Action (Option User)
get_user id = query (λ d. first (λ u. u.id == id) d.accounts.users)

-- `GetUserByHandle`
unfoldable pub get_user_by_handle : String → Action (Option User)
get_user_by_handle handle = query (λ d. first (λ u. str_eq u.handle handle) d.accounts.users)

-- `GetFirstUser`: ids grow, so the first row has the least.
unfoldable pub get_first_user : Action (Option User)
get_first_user = query (λ d. first (λ u. true) d.accounts.users)

-- Passkeys

pub record CreatePasskeyParams : Type 0 where
  pub id : String
  pub user_id : ℕ
  pub label : String
  pub credential : String

abbrev pub is_passkey : String → Store → Bool
is_passkey id d = any (λ p. str_eq p.id id) d.accounts.passkeys

abbrev pub passkey_constraints : CreatePasskeyParams → Store → List (Bool × Error)
passkey_constraints arg d =
    (not (ltb 0 (octets arg.id) && is_present arg.label), check_violation)
    ∷ (is_passkey arg.id d, unique_violation)
    ∷ (not (is_user arg.user_id d), foreign_key_violation)
    ∷ []

abbrev pub new_passkey : CreatePasskeyParams → Instant → UserPasskey
new_passkey arg now = record {
  id = arg.id;
  user_id = arg.user_id;
  label = arg.label;
  credential = arg.credential;
  created_at = now;
  last_used_at = none;
}

abbrev pub insert_passkey : CreatePasskeyParams → Store → Outcome (Unit {0}) × Store
insert_passkey arg d =
    constrained (passkey_constraints arg d) d
      (ok tt, put_passkeys (d.accounts.passkeys ++ (new_passkey arg d.now ∷ [])) d)

-- `CreatePasskey`
unfoldable pub create_passkey : CreatePasskeyParams → Action (Unit {0})
create_passkey arg = statement (insert_passkey arg)

-- `CountPasskeys`
unfoldable pub count_passkeys : ℕ → Action ℕ
count_passkeys user_id = query (λ d. count (λ p. p.user_id == user_id) d.accounts.passkeys)

-- `ListPasskeys`: rows stand in the order of their creation.
unfoldable pub list_passkeys : ℕ → Action (List UserPasskey)
list_passkeys user_id = query (λ d. keep (λ p. p.user_id == user_id) d.accounts.passkeys)

-- `UpdatePasskeyAfterUse`
unfoldable pub update_passkey_after_use : String → String → Action (Unit {0})
update_passkey_after_use id credential = exec (λ d.
    put_passkeys
      (amend (λ p. str_eq p.id id)
        (λ p. record p { credential = credential; last_used_at = some d.now }) d.accounts.passkeys)
      d)

abbrev pub is_own : String → ℕ → UserPasskey → Bool
is_own id user_id p = str_eq p.id id && (p.user_id == user_id)

-- ON DELETE SET NULL
abbrev pub forget : Bool → String → List UserSession → List UserSession
forget gone id ss =
    if gone
    then amend (λ x. same_bytes id x.passkey_id) (λ x. record x { passkey_id = none }) ss
    else ss

abbrev pub remove_passkey : String → ℕ → Store → Outcome ℕ × Store
remove_passkey id user_id d = (
  ok (count (is_own id user_id) d.accounts.passkeys),
  record d {
    accounts = record d.accounts {
      passkeys = keep (λ p. not (is_own id user_id p)) d.accounts.passkeys;
      sessions = forget (any (is_own id user_id) d.accounts.passkeys) id d.accounts.sessions;
    };
  },
)

-- `DeletePasskey`, with the number of rows deleted.
unfoldable pub delete_passkey : String → ℕ → Action ℕ
delete_passkey id user_id = statement (remove_passkey id user_id)
