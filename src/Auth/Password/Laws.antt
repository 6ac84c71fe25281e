-- ===== src/Auth/Password/Laws.antt =====
-- What `VerifyPassword` accepts of what `HashPassword` makes.
use go_cmms.Base.{ℕ, ◌<◌, ◌^◌, ◌≡◌, refl, ◌↔◌, Bool, true, some}
use go_cmms.Base.Lists.{length}
use go_cmms.Text.{Text, is_empty, trim_space, text_eq_iff}
use go_cmms.Phc.{ArgonParams}
use go_cmms.Phc.Encoding.{Bytes}
use go_cmms.Phc.RoundTrip.{phc_parse-encode}
use go_cmms.Http.{World, ok}
use go_cmms.Auth.{External}
use go_cmms.Auth.Password.{phc_of, hash_password, verify_password}

-- The parameters fit the types of the PHC string.
pub record Fits (p : ArgonParams) : Type 0 where
  pub memory : p.memory < 2 ^ 32
  pub time : p.time < 2 ^ 32
  pub threads : p.threads < 2 ^ 8

-- `argon2.IDKey` returns as many bytes as it is asked for.
pub record IsKeyed (x : External) : Type 0 where
  pub bytes : (pw salt : Text) (t m p n : ℕ) → Bytes (x.argon2_id_key pw salt t m p n)
  pub size : (pw salt : Text) (t m p n : ℕ) → length (x.argon2_id_key pw salt t m p n) ≡ n

module _ (x : External) (keyed : IsKeyed x) where
  -- If argon2 returns as many bytes as it is asked for, the parameters of a hash fit their machine
  -- types and its salt consists of bytes, a password is accepted against the hash exactly if it
  -- derives the same key as the hashed password, under the salt and the parameters of the hash.
  pub verify_password_iff :
      (p : ArgonParams) (salt stored pw : Text)
      → Fits p
      → Bytes salt
      → (verify_password x pw (phc_of x p stored salt) ≡ true) ↔ (
          x.argon2_id_key pw salt p.time p.memory p.threads p.key_len
          ≡ x.argon2_id_key stored salt p.time p.memory p.threads p.key_len)
  unfolding verify_password
  verify_password_iff p salt stored pw fits bytes =
      rw
        (
          phc_parse-encode p salt (x.argon2_id_key stored salt p.time p.memory p.threads p.key_len)
              fits.memory fits.time fits.threads bytes
              (keyed.bytes stored salt p.time p.memory p.threads p.key_len),
          keyed.size stored salt p.time p.memory p.threads p.key_len,
        )
        (text_eq_iff _ _)

  -- If argon2 returns as many bytes as it is asked for, the parameters fit their machine types and
  -- the next random text consists of bytes, the hashing of a password that is not blank succeeds,
  -- and the hash verifies against that password.
  pub hash_password-verify_password :
      (p : ArgonParams) (pw : Text) (w : World)
      → Fits p
      → Bytes (w.entropy w.drawn)
      → is_empty (trim_space pw) ≡ Bool.false
      → (phc : Text) × ((hash_password x pw p w).0 ≡ ok (some phc))
        × (verify_password x pw phc ≡ true)
  unfolding hash_password
  hash_password-verify_password p pw w fits bytes e = (
    phc_of x p pw (w.entropy w.drawn),
    rw e refl,
    (verify_password_iff p (w.entropy w.drawn) pw pw fits bytes).1 refl,
  )
