-- ===== src/Auth/Password.antt =====
-- `HashPassword` and `VerifyPassword` of internal/auth/local.go.
pub mod Laws
use go_cmms.Base.{Bool, false, Option, none, some, if◌then◌else◌}
use go_cmms.Base.Lists.{length}
use go_cmms.Text.{Text, is_empty, text_eq, trim_space}
use go_cmms.Http.{Action, ◌>>=◌, pure, draw}
use go_cmms.Phc.{ArgonParams, PhcParts, phc_encode, phc_parse}
use go_cmms.Auth.{External}

module _ (x : External) where
  -- The PHC string of a password under a salt.
  abbrev pub phc_of : ArgonParams → Text → Text → Text
  phc_of p pw salt = phc_encode p salt (x.argon2_id_key pw salt p.time p.memory p.threads p.key_len)

  -- The salt is the next `p.SaltLen` random bytes.
  abbrev pub salted : Text → ArgonParams → Action (Option Text)
  salted pw p = do salt ← draw; pure (some (phc_of p pw salt))

  -- `HashPassword`; `none` is an error.
  unfoldable pub hash_password : Text → ArgonParams → Action (Option Text)
  hash_password pw p = if is_empty (trim_space pw) then pure none else salted pw p

  abbrev pub verify_parts : Text → Option PhcParts → Bool
  verify_parts pw none = false
  verify_parts pw (some c) =
      text_eq (x.argon2_id_key pw c.salt c.time c.memory c.threads (length c.key)) c.key

  -- `VerifyPassword`
  unfoldable pub verify_password : Text → Text → Bool
  verify_password pw phc = verify_parts pw (phc_parse phc)
