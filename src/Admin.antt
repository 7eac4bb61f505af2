-- ===== src/Admin.antt =====
-- The owners' accounts: internal/admin/admin.go. Bytes are texts whose characters are bytes, times
-- are in seconds, and `crypto/rand` gives what the operations are passed.
pub mod Devices
pub mod Enroll
pub mod Login
pub mod Origin
pub mod Kept
pub mod Operations
pub mod Ceiling
pub mod WayIn
pub mod Reach
pub mod Race
pub mod Out
pub mod Once
pub mod Invited
pub mod Entered
pub mod Second
pub mod Tables
use Prim.Native.String.{String}
use bealhouse.Prelude.{
  ℕ, ◌-◌, Bool, true, false, List, [], ◌∷◌, Option, none, some, leb, if◌then◌else◌,
}
use bealhouse.Prelude.Text.{trim_space}
use bealhouse.Db.Schema.{Instant, User, UserPasskey}
use bealhouse.Db.Session.{
  Action, Outcome, ok, err, Error, Session, pure, raise, ◌>>=◌, ◌>>◌, denied, undecodable,
}
use bealhouse.Db.Accounts.{octets, list_passkeys}

-- 365 days, twice.
abbrev pub session_lifetime : ℕ
session_lifetime = 31_536_000

abbrev pub session_ceiling : ℕ
session_ceiling = 31_536_000

abbrev pub touch_interval : ℕ
touch_interval = 3600

abbrev pub enrollment_lifetime : ℕ
enrollment_lifetime = 900

abbrev pub ceremony_lifetime : ℕ
ceremony_lifetime = 300

abbrev pub user_agent_limit : ℕ
user_agent_limit = 200

-- crypto/sha256, and `base64.RawURLEncoding`.
pub record Crypto : Type 0 where
  pub sha256 : String → String
  pub encode64 : String → String
  pub decode64 : String → Option String

module _ (c : Crypto) where
  -- `newToken`: the token, and the hash that is stored.
  unfoldable pub new_token : String → String × String
  new_token raw = (c.encode64 raw, c.sha256 raw)

  unfoldable pub hash_token : String → String
  hash_token token = elim (c.decode64 (trim_space token)) [
    | none ↦ c.sha256 token
    | some raw ↦ c.sha256 raw
  ]

take_bytes : ℕ → String → String
take_bytes _ String.[] = String.[]
take_bytes n (String.◌∷◌ x s) =
    let rest = take_bytes (n - 1) s in if leb n 0 then String.[] else String.◌∷◌ x rest

unfoldable pub truncate : String → ℕ → String
unfolding take_bytes
truncate s n = if leb (octets s) n then s else take_bytes n s

-- Who is on the other end of a request.
pub record Identity : Type 0 where
  pub user_id : ℕ
  pub name : String
  pub passkey_id : Option String

-- `webauthn.Credential` and `webauthn.SessionData`, with what the code reads of them.
pub record Credential : Type 0 where
  pub id : String
  pub material : String
  pub clone_warning : Bool

pub record Challenge : Type 0 where
  pub user_id : String
  pub challenge : String

-- What a browser sends back.
pub record Request : Type 0 where
  pub body : String
  pub user_agent : String

-- `id` is 0 for an account that is still to be created.
pub record Account : Type 0 where
  pub id : ℕ
  pub handle : String
  pub name : String
  pub creds : List Credential

-- The library go-webauthn and the JSON of its values. `asserted` is the id and the handle that
-- `FinishPasskeyLogin` passes to its lookup, and `validate` what it makes of the account found.
pub record Webauthn : Type 0 where
  pub begin_registration : Account → Option Challenge
  pub finish_registration : Account → Challenge → Request → Option Credential
  pub begin_login : Option Challenge
  pub asserted : Challenge → Request → Option (String × String)
  pub validate : Account → Challenge → Request → Option Credential
  pub encode_credential : Credential → String
  pub decode_credential : String → Option Credential
  pub encode_challenge : Challenge → String
  pub decode_challenge : String → Option Challenge

-- An error that is only logged.
unfoldable pub best_effort : Action (Unit {0}) → Action (Unit {0})
best_effort m s = (ok tt, (m s).1)

-- Every error is the one refusal.
unfoldable pub or_denied : {A : Type 0} → Action A → Action A
or_denied m s = let (r, s') = m s in elim r [ ok a ↦ (ok a, s') | err e ↦ (err denied, s') ]

-- What is done on the way out of a failure.
unfoldable pub on_failure : {A : Type 0} → Action A → Action (Unit {0}) → Action A
on_failure m cleanup s =
    let (r, s') = m s in elim r [ ok a ↦ (ok a, s') | err e ↦ (err e, (cleanup s').1) ]

-- What is there, or an error.
abbrev pub or_else {ℓ} : {A : Type 0} {B : Type ℓ} → Option A → B → (A → B) → B
or_else none other f = other
or_else (some a) other f = f a

module _ (w : Webauthn) where
  abbrev pub decode_all : List UserPasskey → Option (List Credential)
  decode_all [] = some []
  decode_all (p ∷ ps) =
      let rest = decode_all ps in
      or_else (w.decode_credential p.credential) none (λ c. or_else rest none (λ cs. some (c ∷ cs)))

  -- `loadAccount`: a row that does not decode is an error.
  unfoldable pub load_account : User → Action Account
  load_account u = do
    rows ← list_passkeys u.id
    or_else (decode_all rows) (raise undecodable)
        (λ cs. pure (record { id = u.id; handle = u.handle; name = u.name; creds = cs }))
