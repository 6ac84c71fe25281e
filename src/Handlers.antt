-- ===== src/Handlers.antt =====
-- internal/handlers: what the handlers behind `RequireAuth` share. `chi.URLParam` is the argument
-- `id_text` of a handler, and a decoded JSON body the argument `body`, `none` if it does not decode.
pub mod WorkOrders
pub mod Tasks
pub mod Routes
pub mod Tenants
use go_cmms.Base.{ℕ, [], ◌∷◌}
use go_cmms.Text.{Text, codes}
use go_cmms.Http.{Response, json, str}

-- `httpserver.JSON(w, status, map[string]string{"error": msg})`
abbrev pub failure : ℕ → Text → Response
failure status msg = json status ((codes "error", str msg) ∷ [])

abbrev pub unauthorized : Response
unauthorized = failure 401 (codes "unauthorized")
