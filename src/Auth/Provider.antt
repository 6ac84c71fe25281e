-- ===== src/Auth/Provider.antt =====
-- internal/auth/provider.go and the extraction of an identity in internal/auth/handlers.go. The
-- OAuth2 and OIDC libraries, the providers' servers and GitHub's API are functions; the text of
-- their errors is left out. A provider that is nil or has no OAuth2 configuration is not in the map.
use go_cmms.Base.{Bool, ◌&&◌, not, Option, none, some, List, [], ◌∷◌, ◌++◌, if◌then◌else◌}
use go_cmms.Base.Lists.{and_then}
use go_cmms.Base.Maps.{Map}
use go_cmms.Text.{Text, codes, is_empty, text_eq, trim_space}
use go_cmms.Models.{Time}

abbrev pub provider_microsoft : Text
provider_microsoft = codes "microsoft"

abbrev pub provider_github : Text
provider_github = codes "github"

-- `msClaims`
pub record MsClaims : Type 0 where
  pub email : Text
  pub email_verified : Bool
  pub name : Text
  pub preferred_user : Text
  pub sub : Text
  pub tenant_id : Text
  pub groups : List Text
  pub nonce : Text

-- The claims that are read of any other OIDC provider.
pub record OidcClaims : Type 0 where
  pub email : Text
  pub email_verified : Bool
  pub name : Text
  pub sub : Text
  pub nonce : Text
  pub picture : Text

-- A verified token: what `idt.Claims` decodes into each of the two structs, `none` for an error.
pub record IdToken : Type 0 where
  pub ms_claims : Option MsClaims
  pub oidc_claims : Option OidcClaims

-- `oauth2.Token`: the extra `id_token`, "" if it is missing or no string, and the access token.
pub record Token : Type 0 where
  pub id_token : Text
  pub access_token : Text

-- `Provider`: `AuthCodeURL` with a state and perhaps a nonce, `Exchange` of a code, and
-- `OIDCVerifier.Verify` of a raw token at a time.
pub record Provider : Type 0 where
  pub auth_code_url : Text → Option Text → Text
  pub exchange : Text → Option Token
  pub verifier : Option (Time → Text → Option IdToken)

abbrev pub Providers : Type 0
Providers = Map Text Provider

-- The answer of `https://api.github.com/user`, with its id as it is printed.
pub record GithubUser : Type 0 where
  pub id : Text
  pub login : Text
  pub name : Text
  pub email : Text

-- GitHub: the user of an access token, if the request succeeds with 200 and its body decodes, and
-- the avatar of the second request, "" if that fails.
pub record Github : Type 0 where
  pub user : Text → Option GithubUser
  pub avatar : Text → Text

pub record Identity : Type 0 where
  pub email : Text
  pub name : Text
  pub subject : Text
  pub tenant : Text
  pub groups : List Text
  pub picture : Text

-- `firstNonEmpty`
unfoldable pub first_non_empty : List Text → Text
first_non_empty [] = []
first_non_empty (s ∷ ss) =
    let rest = first_non_empty ss in if not (is_empty (trim_space s)) then s else rest

-- `wantNonce != "" && c.Nonce != wantNonce`
abbrev pub is_bad_nonce : Text → Text → Bool
is_bad_nonce want nonce = not (is_empty want) && not (text_eq nonce want)

unfoldable pub identity_of_ms : Text → MsClaims → Option Identity
unfolding first_non_empty
identity_of_ms want c =
    if is_bad_nonce want c.nonce
    then none
    else some (record {
      email = first_non_empty (c.email ∷ c.preferred_user ∷ []);
      name = c.name;
      subject = c.sub;
      tenant = c.tenant_id;
      groups = c.groups;
      picture = [];
    })

unfoldable pub identity_of_oidc : Text → OidcClaims → Option Identity
identity_of_oidc want c =
    if is_bad_nonce want c.nonce
    then none
    else some (record {
      email = c.email;
      name = c.name;
      subject = c.sub;
      tenant = [];
      groups = [];
      picture = c.picture;
    })

-- The `switch` on the provider's name.
unfoldable pub identity_of_claims : Text → Text → IdToken → Option Identity
unfolding identity_of_ms identity_of_oidc
identity_of_claims pname want idt =
    if text_eq pname provider_microsoft
    then and_then idt.ms_claims (identity_of_ms want)
    else and_then idt.oidc_claims (identity_of_oidc want)

-- `email == "" && u.Login != ""`
abbrev pub github_email : GithubUser → Text
github_email u =
    if is_empty u.email && not (is_empty u.login)
    then u.login ++ codes "@users.noreply.github.com"
    else u.email

-- `fetchGitHubProfile`
unfoldable pub fetch_github_profile : Github → Text → Option Identity
unfolding first_non_empty
fetch_github_profile g access_token = and_then (g.user access_token) λ u. some (record {
  email = github_email u;
  name = first_non_empty (u.name ∷ u.login ∷ []);
  subject = u.id;
  tenant = [];
  groups = [];
  picture = g.avatar access_token;
})

-- The identity of a token that has to be verified.
abbrev pub verified_identity :
    (Time → Text → Option IdToken) → Text → Token → Text → Time → Option Identity
verified_identity verify pname tok want now =
    if is_empty tok.id_token
    then none
    else and_then (verify now tok.id_token) (identity_of_claims pname want)

abbrev pub identity_by :
    Option (Time → Text → Option IdToken) → Github → Text → Token → Text → Time → Option Identity
identity_by (some verify) g pname tok want now = verified_identity verify pname tok want now
identity_by none g pname tok want now =
    if text_eq pname provider_github then fetch_github_profile g tok.access_token else none

-- `extractIdentity`
unfoldable pub extract_identity : Provider → Github → Text → Token → Text → Time → Option Identity
unfolding identity_of_claims fetch_github_profile
extract_identity p g pname tok want now = identity_by p.verifier g pname tok want now
