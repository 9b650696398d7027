-- ===== src/Auth/Codes.antt =====
-- The codes that are mailed to an address (app/pages/auth.py): the two flows, of a registration and of
-- a forgotten password, ask for a code, for another one, and take an answer. A token comes in as what
-- `decode_verification_token` makes of it, and the drawn code comes from outside. The table of codes
-- is kept newest first, as its queries read it; moments are in microseconds. A request under
-- another identity does not reach these handlers.
use broadcaster.Prelude.{
  ℕ, ◌+◌, ◌-◌, Bool, true, false, not, ◌&&◌, ◌||◌, Option, none, some, List, [], ◌∷◌, ◌++◌, length,
  find, modify, leb, ltb, ◌==◌, if◌then◌else◌,
}
use broadcaster.Scheduling.Rules.{is_empty}
use broadcaster.Accounts.Resync.{Text, same}

pub data Purpose : Type 0 where
  registration password_reset : Purpose

abbrev pub is_purpose : Purpose → Purpose → Bool
is_purpose registration registration = true
is_purpose password_reset password_reset = true
is_purpose _ _ = false

pub record EmailVerificationCode : Type 0 where
  pub email : Text
  pub code : Text
  pub purpose : Purpose
  pub attempts : ℕ
  pub verified_at : Option ℕ
  pub expires_at : ℕ
  pub created_at : ℕ

pub record User : Type 0 where
  pub email : Text
  pub password_hash : Text

-- What a token says, its purpose being the flow's.
pub record Payload : Type 0 where
  pub email : Text
  pub verified : Bool
  pub purpose : Purpose

-- The two tables, and the mails that went out, with their codes.
pub record Desk : Type 0 where
  pub users : List User
  pub codes : List EmailVerificationCode
  pub mails : List (Text × Text)

-- The screens, with the token that each carries.
pub data Screen : Type 0 where
  start_over address_refused address_gone password_changed : Screen
  code_screen wait_a_minute code_refused new_password short_password : Payload → Screen
  -- The flow, the address, and the tries that are left.
  wrong_code : Purpose → Text → ℕ → Screen

abbrev pub code_ttl : ℕ
code_ttl = 600000000

abbrev pub code_max_attempts : ℕ
code_max_attempts = 5

abbrev pub code_resend_cooldown : ℕ
code_resend_cooldown = 60000000

abbrev pub is_null : Option ℕ → Bool
is_null none = true
is_null (some n) = false

-- The rows of an address in a flow.
abbrev pub belongs : Purpose → Text → EmailVerificationCode → Bool
belongs purpose email c = same c.email email && is_purpose c.purpose purpose

abbrev pub is_current : Purpose → Text → ℕ → EmailVerificationCode → Bool
is_current purpose email now c =
    belongs purpose email c
    && (is_null c.verified_at && (ltb now c.expires_at && ltb c.attempts code_max_attempts))

abbrev pub is_recent : ℕ → Option EmailVerificationCode → Bool
is_recent now none = false
is_recent now (some c) = ltb now (c.created_at + code_resend_cooldown)

-- Whether the last code of the address is less than a minute old.
abbrev pub too_soon : Purpose → Text → ℕ → Desk → Bool
too_soon purpose email now d = is_recent now (find (belongs purpose email) d.codes)

abbrev pub has_email : Text → User → Bool
has_email email u = same u.email email

unfoldable pub is_known : Text → List User → Bool
is_known email [] = false
is_known email (u ∷ us) = has_email email u || is_known email us

-- A registration wants a new address, a forgotten password a known one.
abbrev pub is_refused : Purpose → Bool → Bool
is_refused registration known = known
is_refused password_reset known = not known

abbrev pub token_of : Purpose → Text → Bool → Payload
token_of purpose email verified = record { email = email; verified = verified; purpose = purpose }

-- A new code: the row, and the mail if the server of mails takes it; a failure is only logged.
abbrev pub store_code : Purpose → ℕ → ℕ → Bool → Text → Text → Desk → Desk
store_code purpose now created_at mailed code email d = record d {
  codes =
      record {
        email = email;
        code = code;
        purpose = purpose;
        attempts = 0;
        verified_at = none;
        expires_at = now + code_ttl;
        created_at = created_at;
      }
      ∷ d.codes;
  mails = if mailed then d.mails ++ (email, code) ∷ [] else d.mails;
}

unfoldable pub send_code : Purpose → ℕ → ℕ → Bool → Text → Text → Desk → Screen × Desk
send_code purpose now created_at mailed code email d =
    if is_refused purpose (is_known email d.users)
    then (address_refused, d)
    else if too_soon purpose email now d
    then (wait_a_minute (token_of purpose email false), d)
    else (
      code_screen (token_of purpose email false),
      store_code purpose now created_at mailed code email d,
    )

-- The registration takes any token that can be read, and the other flow its own alone.
abbrev pub of_flow : Purpose → Option Payload → Option Payload
of_flow purpose none = none
of_flow registration (some p) = some p
of_flow password_reset (some p) = if is_purpose p.purpose password_reset then some p else none

abbrev pub resend_to : Purpose → ℕ → ℕ → Bool → Text → Option Payload → Desk → Screen × Desk
resend_to purpose now created_at mailed code none d = (start_over, d)
resend_to purpose now created_at mailed code (some p) d =
    if too_soon purpose p.email now d then (wait_a_minute p, d) else (
      code_screen (token_of purpose p.email false),
      store_code purpose now created_at mailed code p.email d,
    )

unfoldable pub resend_code : Purpose → ℕ → ℕ → Bool → Text → Option Payload → Desk → Screen × Desk
resend_code purpose now created_at mailed code token d =
    resend_to purpose now created_at mailed code (of_flow purpose token) d

-- What `str.strip` takes off.
abbrev pub is_space : ℕ → Bool
is_space c =
    (leb 9 c && leb c 13)
    || ((leb 28 c && leb c 32)
        || ((c == 133)
            || ((c == 160)
                || ((c == 5760)
                    || ((leb 8192 c && leb c 8202)
                        || ((c == 8232)
                            || ((c == 8233) || ((c == 8239) || ((c == 8287) || (c == 12288))))))))))

unfoldable pub lstrip : Text → Text
lstrip [] = []
lstrip (c ∷ cs) = let rest = lstrip cs in if is_space c then rest else c ∷ cs

unfoldable pub rstrip : Text → Text
rstrip [] = []
rstrip (c ∷ cs) = let rest = rstrip cs in if is_space c && is_empty rest then [] else c ∷ rest

abbrev pub strip : Text → Text
strip t = rstrip (lstrip t)

-- A change of the row that a query with LIMIT 1 found.
unfoldable pub modify_first :
    (EmailVerificationCode → Bool)
    → (EmailVerificationCode → EmailVerificationCode)
    → List EmailVerificationCode
    → List EmailVerificationCode
modify_first p f [] = []
modify_first p f (c ∷ cs) = let rest = modify_first p f cs in if p c then f c ∷ cs else c ∷ rest

abbrev pub add_attempt : EmailVerificationCode → EmailVerificationCode
add_attempt c = record c { attempts = c.attempts + 1 }

abbrev pub set_verified : ℕ → EmailVerificationCode → EmailVerificationCode
set_verified now c = record c { verified_at = some now }

abbrev pub on_current :
    (EmailVerificationCode → EmailVerificationCode) → Purpose → Text → ℕ → Desk → Desk
on_current f purpose email now d = record d {
  codes = modify_first (is_current purpose email now) f d.codes;
}

abbrev pub compare :
    Purpose → ℕ → Text → Payload → Option EmailVerificationCode → Desk → Screen × Desk
compare purpose now typed p none d = (code_refused p, d)
compare purpose now typed p (some c) d =
    if same c.code (strip typed)
    then (
      new_password (token_of purpose p.email true),
      on_current (set_verified now) purpose p.email now d,
    )
    else (
      wrong_code purpose p.email (code_max_attempts - (c.attempts + 1)),
      on_current add_attempt purpose p.email now d,
    )

abbrev pub verify_with : Purpose → ℕ → Text → Option Payload → Desk → Screen × Desk
verify_with purpose now typed none d = (start_over, d)
verify_with purpose now typed (some p) d =
    compare purpose now typed p (find (is_current purpose p.email now) d.codes) d

unfoldable pub verify_code : Purpose → ℕ → Text → Option Payload → Desk → Screen × Desk
verify_code purpose now typed token d = verify_with purpose now typed (of_flow purpose token) d

module _ (hash_password : Text → Text) where
  abbrev pub set_password : Text → Text → Desk → Desk
  set_password email password d = record d {
    users =
        modify (has_email email) (λ u. record u { password_hash = hash_password password }) d.users;
  }

  abbrev pub reset_with : Text → Option Payload → Desk → Screen × Desk
  reset_with password none d = (start_over, d)
  reset_with password (some p) d =
      if not p.verified
      then (start_over, d)
      else if not (is_known p.email d.users)
      then (address_gone, d)
      else if ltb (length password) 6
      then (short_password (token_of password_reset p.email true), d)
      else (password_changed, set_password p.email password d)

  unfoldable pub forgot_password_reset : Text → Option Payload → Desk → Screen × Desk
  forgot_password_reset password token d = reset_with password (of_flow password_reset token) d

-- The handlers of the two flows.
abbrev pub register_send_code : ℕ → ℕ → Bool → Text → Text → Desk → Screen × Desk
register_send_code = send_code registration

abbrev pub register_resend_code : ℕ → ℕ → Bool → Text → Option Payload → Desk → Screen × Desk
register_resend_code = resend_code registration

abbrev pub register_verify : ℕ → Text → Option Payload → Desk → Screen × Desk
register_verify = verify_code registration

abbrev pub forgot_password_send_code : ℕ → ℕ → Bool → Text → Text → Desk → Screen × Desk
forgot_password_send_code = send_code password_reset

abbrev pub forgot_password_resend_code : ℕ → ℕ → Bool → Text → Option Payload → Desk → Screen × Desk
forgot_password_resend_code = resend_code password_reset

abbrev pub forgot_password_verify : ℕ → Text → Option Payload → Desk → Screen × Desk
forgot_password_verify = verify_code password_reset
