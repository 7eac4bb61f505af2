-- ===== src/Admin/Origin.antt =====
-- The relying party: `NewRP`, `dedupe` and `New` of internal/admin/admin.go. Go's net/url and the
-- passkey library's configuration are parameters.
use Prim.Native.String.{String}
use text.Mathlib.Text.{◌==◌ as str_eq}
use bealhouse.Prelude.{
  Bool, not, ◌&&◌, ◌≡◌, refl, List, [], ◌∷◌, Option, none, some, any, if◌then◌else◌,
}
use bealhouse.Prelude.Text.{trim_space, trim_slashes}
use bealhouse.Db.Session.{Outcome, ok, err, not_configured, not_an_origin, webauthn_failed}
use bealhouse.Admin.{Webauthn}
use bealhouse.Admin.Enroll.{inn_name}

-- Which origin the console answers to.
pub record Rp : Type 0 where
  pub id : String
  pub display_name : String
  pub origins : List String

-- The first of each; `seen` are those before.
unfoldable pub dedupe_from : List String → List String → List String
dedupe_from seen [] = []
dedupe_from seen (s ∷ rest) =
    let same = dedupe_from seen rest in
    let more = dedupe_from (s ∷ seen) rest in if any (λ t. str_eq t s) seen then same else s ∷ more

-- `dedupe`
unfoldable pub dedupe : List String → List String
dedupe origins = dedupe_from [] origins

abbrev pub localhost : Rp
localhost = record {
  id = "localhost";
  display_name = inn_name;
  origins = "http://localhost:8080" ∷ "http://localhost:5173" ∷ [];
}

abbrev pub origins_of : String → Bool → String → List String
origins_of site_url is_dev host =
    if is_dev && str_eq host "localhost"
    then dedupe (site_url ∷ "http://localhost:5173" ∷ "http://localhost:8080" ∷ [])
    else site_url ∷ []

-- `u.Hostname()`, where the address parses.
abbrev pub at_host : String → Bool → Option String → Outcome Rp
at_host site_url is_dev none = err not_an_origin
at_host site_url is_dev (some host) =
    if str_eq host ""
    then err not_an_origin
    else ok
        (record { id = host; display_name = inn_name; origins = origins_of site_url is_dev host })

abbrev pub rp_of : (String → Option String) → String → Bool → Outcome Rp
rp_of hostname site_url is_dev =
    if str_eq site_url ""
    then (if not is_dev then err not_configured else ok localhost)
    else at_host site_url is_dev (hostname site_url)

-- `NewRP`
unfoldable pub new_rp : (String → Option String) → String → Bool → Outcome Rp
new_rp hostname site_url is_dev = rp_of hostname (trim_slashes (trim_space site_url)) is_dev

-- `New`, with the library's `webauthn.New`; `none` is nil.
unfoldable pub new : (Rp → Option Webauthn) → Option Rp → Outcome Webauthn
new configure none = err not_configured
new configure (some rp) = elim (configure rp) [ none ↦ err webauthn_failed | some w ↦ ok w ]

-- The two ports of development, of which the site's own is one.
deduped :
    dedupe ("http://localhost:5173" ∷ "http://localhost:5173" ∷ "http://localhost:8080" ∷ [])
    ≡ "http://localhost:5173" ∷ "http://localhost:8080" ∷ []
unfolding dedupe dedupe_from
deduped = refl
