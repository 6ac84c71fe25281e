-- ===== src/Auth/OAuth/Nonce.antt =====
-- The nonce of `extractIdentity`, which ties a token to the browser that started the sign-in.
use go_cmms.Base.{◌≡◌, Option, none, some, [], arith, if◌then◌else◌}
use go_cmms.Base.Lists.{and_then, and_then_inv}
use go_cmms.Text.{Text, is_empty, text_eq, text_eq_iff, text_key}
use go_cmms.Base.{false, Bool-cases, Option-cases, inl, inr}
use go_cmms.Models.{Time}
use go_cmms.Auth.Provider.{
  Provider, Github, Token, Identity, IdToken, MsClaims, OidcClaims, extract_identity,
  identity_of_claims, identity_of_ms, identity_of_oidc, provider_microsoft,
}

abbrev nonce_of_ms : Option MsClaims → Text
nonce_of_ms none = []
nonce_of_ms (some c) = c.nonce

abbrev nonce_of_oidc : Option OidcClaims → Text
nonce_of_oidc none = []
nonce_of_oidc (some c) = c.nonce

-- The nonce of the claims that are read of a token.
abbrev pub nonce_of : Text → IdToken → Text
nonce_of pname idt =
    if text_eq pname provider_microsoft
    then nonce_of_ms idt.ms_claims
    else nonce_of_oidc idt.oidc_claims

identity_of_claims-nonce :
    (pname want : Text) (idt : IdToken) (id : Identity)
    → is_empty want ≡ false
    → identity_of_claims pname want idt ≡ some id
    → nonce_of pname idt ≡ want
unfolding identity_of_claims identity_of_ms identity_of_oidc
identity_of_claims-nonce pname want idt id h e = elim (Option-cases idt.ms_claims) [
  | inl f ↦ elim (Option-cases idt.oidc_claims) [
    | inl g ↦ ground arith
    | inr (c, g) ↦ ground (arith, text_eq_iff c.nonce want)
  ]
  | inr (m, f) ↦ elim (Option-cases idt.oidc_claims) [
    | inl g ↦ ground (arith, text_eq_iff m.nonce want)
    | inr (c, g) ↦ ground (arith, text_eq_iff m.nonce want, text_eq_iff c.nonce want)
  ]
]

-- With a nonce in the cookie, an identity of an OIDC provider comes from a token that the provider's
-- verifier accepts now, and whose claims carry that nonce.
pub extract_identity-nonce :
    (p : Provider) (g : Github) (pname want : Text) (tok : Token) (now : Time) (id : Identity)
    (verify : Time → Text → Option IdToken)
    → p.verifier ≡ some verify
    → is_empty want ≡ false
    → extract_identity p g pname tok want now ≡ some id
    → (idt : IdToken) × (verify now tok.id_token ≡ some idt) × (nonce_of pname idt ≡ want)
unfolding extract_identity
extract_identity-nonce p g pname want tok now id verify v h e =
    elim (Bool-cases (is_empty tok.id_token)) [
      | inl f ↦ absurd (ground arith)
      | inr f ↦
          let checked : and_then (verify now tok.id_token) (identity_of_claims pname want)
              ≡ some id =
            ground arith in
          let (idt, known, found) =
            and_then_inv (verify now tok.id_token) (identity_of_claims pname want) id checked in
          (idt, known, identity_of_claims-nonce pname want idt id h found)
    ]
