-- ===== src/Auth/Requests.antt =====
-- Requests for codes, answers to codes, and new passwords, in any order (app/pages/auth.py). The last
-- step of a registration, which creates the user, is not among them.
pub mod Guesses
pub mod Proofs
pub mod Earned
pub mod Typed
use broadcaster.Prelude.{ℕ, zero, suc, Bool, Option, none, some, List, [], ◌∷◌, ◌++◌}
use broadcaster.Accounts.Resync.{Text}
use broadcaster.Auth.Codes.{
  Purpose, Payload, Desk, Screen, start_over, address_refused, address_gone, password_changed,
  code_screen, wait_a_minute, code_refused, new_password, short_password, wrong_code, send_code,
  resend_code, verify_code, forgot_password_reset,
}

-- A request, with the moment and what comes from outside.
pub data Request (Token : Type 0) : Type 0 where
  send : Purpose → ℕ → ℕ → Bool → Text → Text → Request Token
  resend : Purpose → ℕ → ℕ → Bool → Text → Token → Request Token
  verify : Purpose → ℕ → Text → Token → Request Token
  reset : Text → Token → Request Token

module _ (hash_password : Text → Text) where
  abbrev pub serve : Request (Option Payload) → Desk → Screen × Desk
  serve (send purpose now created_at mailed code email) d =
      send_code purpose now created_at mailed code email d
  serve (resend purpose now created_at mailed code token) d =
      resend_code purpose now created_at mailed code token d
  serve (verify purpose now typed token) d = verify_code purpose now typed token d
  serve (reset password token) d = forgot_password_reset hash_password password token d

  unfoldable pub serve_all : List (Request (Option Payload)) → Desk → List Screen × Desk
  serve_all [] d = ([], d)
  serve_all (r ∷ rs) d =
      let (screen, after) = serve r d in
      let (screens, last) = serve_all rs after in (screen ∷ screens, last)

-- The tokens that a screen carries.
abbrev pub tokens_of : Screen → List Payload
tokens_of (code_screen p) = p ∷ []
tokens_of (wait_a_minute p) = p ∷ []
tokens_of (code_refused p) = p ∷ []
tokens_of (new_password p) = p ∷ []
tokens_of (short_password p) = p ∷ []
tokens_of start_over = []
tokens_of address_refused = []
tokens_of address_gone = []
tokens_of password_changed = []
tokens_of (wrong_code flow email left) = []

-- A token is signed: what can be read is one that was given out, and is named here by its place in
-- what was given out; `none` is a forged or an outdated one.
unfoldable pub issued_at : ℕ → List Payload → Option Payload
issued_at n [] = none
issued_at zero (p ∷ ps) = some p
issued_at (suc n) (p ∷ ps) = issued_at n ps

abbrev pub shown : List Payload → Option ℕ → Option Payload
shown issued none = none
shown issued (some n) = issued_at n issued

abbrev pub present : List Payload → Request (Option ℕ) → Request (Option Payload)
present issued (send purpose now created_at mailed code email) =
    send purpose now created_at mailed code email
present issued (resend purpose now created_at mailed code token) =
    resend purpose now created_at mailed code (shown issued token)
present issued (verify purpose now typed token) = verify purpose now typed (shown issued token)
present issued (reset password token) = reset password (shown issued token)

module _ (hash_password : Text → Text) where
  -- Requests with tokens that were given out.
  unfoldable pub serve_signed : List (Request (Option ℕ)) → List Payload → Desk → Desk
  serve_signed [] issued d = d
  serve_signed (r ∷ rs) issued d =
      let (screen, after) = serve hash_password (present issued r) d in
      serve_signed rs (tokens_of screen ++ issued) after
