-- ===== src/Security/Laws.antt =====
-- The deny lists as sets of users and of (provider, subject) pairs.
use mathlib.Core.List.{append_assoc}
use go_cmms.Base.{ℕ, Bool, true, ◌≡◌, sym, refl, ◌==◌, ◌||◌, ◌&&◌, not, [], ◌∷◌, ◌++◌, arith}
use go_cmms.Base.Maps.{lookup-insert, lookup-erase}
use go_cmms.Base.Lists.{all}
use go_cmms.Text.{Text, text_eq, text_eq_iff, text_key, uuid_key}
use go_cmms.Security.{
  Denied, key_ident, deny_user, allow_user, is_user_denied, deny_identity, allow_identity,
  is_identity_denied,
}

-- A provider's name without the separator.
abbrev pub has_no_bar : Text → Bool
has_no_bar = all (λ c. not (c == b'|'))

key_ident_inj :
    (p q s t : Text)
    → has_no_bar p ≡ true
    → has_no_bar q ≡ true
    → key_ident p s ≡ key_ident q t
    → (p ≡ q) × (s ≡ t)
unfolding key_ident
key_ident_inj [] [] s t hp hq e = ground arith
key_ident_inj [] (d ∷ q) s t hp hq e = ground arith
key_ident_inj (c ∷ p) [] s t hp hq e = ground arith
key_ident_inj (c ∷ p) (d ∷ q) s t hp hq e = ground (arith, key_ident_inj p q s t)

key_ident-test :
    (p q s t : Text)
    → has_no_bar p ≡ true
    → has_no_bar q ≡ true
    → text_eq (key_ident p s) (key_ident q t) ≡ (text_eq p q && text_eq s t)
key_ident-test p q s t hp hq = ground (
  arith,
  key_ident_inj p q s t,
  text_eq_iff (key_ident p s) (key_ident q t),
  text_eq_iff p q,
  text_eq_iff s t,
)

-- The user list is a set: a user is denied after `DenyUser` or `AllowUser` exactly if it is the
-- one named, respectively not, or was before.
user-denied :
    (i j : ℕ) (d : Denied)
    → (is_user_denied j (deny_user i d) ≡ ((i == j) || is_user_denied j d))
      × (is_user_denied j (allow_user i d) ≡ (not (i == j) && is_user_denied j d))
unfolding is_user_denied deny_user allow_user
user-denied i j d = ground (arith, lookup-insert i j tt d.users, lookup-erase i j d.users)

-- The identity list is a set of pairs, for provider names without the separator '|': denying or
-- allowing one identity changes the answer for that pair alone, and leaves every user alone.
identity-denied :
    (p q s t : Text) (d : Denied)
    → has_no_bar p ≡ true
    → has_no_bar q ≡ true
    → (is_identity_denied q t (deny_identity p s d)
        ≡ ((text_eq p q && text_eq s t) || is_identity_denied q t d))
      × (is_identity_denied q t (allow_identity p s d)
          ≡ (not (text_eq p q && text_eq s t) && is_identity_denied q t d))
      × ((i : ℕ) → is_user_denied i (deny_identity p s d) ≡ is_user_denied i d)
unfolding is_identity_denied deny_identity allow_identity is_user_denied
identity-denied p q s t d hp hq =
    let k = key_ident-test p q s t hp hq in
    let ins = lookup-insert (key_ident p s) (key_ident q t) tt d.idents in
    let era = lookup-erase (key_ident p s) (key_ident q t) d.idents in
    (ground (arith, k, ins), ground (arith, k, era), λ i. refl)

-- With a '|' in the provider's name the pairs are confused: the same key stands for two identities.
pub identity-confused :
    (p q s : Text) (d : Denied)
    → is_identity_denied (p ++ b'|' ∷ q) s (deny_identity p (q ++ b'|' ∷ s) d) ≡ true
unfolding is_identity_denied deny_identity key_ident
identity-confused p q s d = ground (
  arith,
  lookup-insert (key_ident p (q ++ b'|' ∷ s)) (key_ident (p ++ b'|' ∷ q) s) tt d.idents,
  text_eq_iff (key_ident p (q ++ b'|' ∷ s)) (key_ident (p ++ b'|' ∷ q) s),
  same p,
)
  where
    same : (p : Text) → key_ident p (q ++ b'|' ∷ s) ≡ key_ident (p ++ b'|' ∷ q) s
    same p = sym (append_assoc p (b'|' ∷ q) (b'|' ∷ s))
