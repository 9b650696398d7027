-- ===== src/Auth/Tests.antt =====
-- A user who asks for a code, guesses wrongly, and answers rightly; and one who only guesses.
use broadcaster.Prelude.{
  ◌∙◌, sym, ap, Bool-cases, inl, inr, ℕ, ◌*◌, ◌≤◌, ◌≡◌, refl, true, false, Option, none, some, List,
  [], ◌∷◌, find, modify, count,
}
use broadcaster.Prelude.Decimal.{codes}
use broadcaster.Accounts.Resync.{Text, same}
use broadcaster.Accounts.Resync.Named.{same_eq}
use broadcaster.Auth.Codes.{
  start_over, address_refused, wait_a_minute, code_refused, new_password, register_send_code,
  register_resend_code, register_verify, forgot_password_send_code, forgot_password_resend_code,
  forgot_password_verify, password_reset, Payload, Desk, has_email, is_known, belongs,
  code_max_attempts, send_code, verify_code, resend_code, forgot_password_reset, lstrip, rstrip,
  modify_first,
}
use broadcaster.Auth.Requests.{Request, send, verify, reset, serve_all, serve_signed, issued_at}
use broadcaster.Auth.Requests.Guesses.{is_guess, serve_all_guesses}
use broadcaster.Auth.Requests.Proofs.{is_proven}
use broadcaster.Auth.Requests.Typed.{has_code, is_typed, serve_signed_untyped}

abbrev anna : Text
anna = codes "anna@example.org"

abbrev desk : Desk
desk = record {
  users = record { email = anna; password_hash = codes "old" } ∷ [];
  codes = [];
  mails = [];
}

-- Passlib's hash stands in as the text itself.
abbrev hashed : Text → Text
hashed password = password

abbrev token : Payload
token = record { email = anna; verified = false; purpose = password_reset }

abbrev requests : List (Request (Option Payload))
requests =
    send password_reset 0 0 true (codes "123456") anna
    ∷ verify password_reset 1000000 (codes "000000") (some token)
    ∷ verify password_reset 2000000 (codes " 123456 ") (some token)
    ∷ []

two_guesses : count (is_guess password_reset anna) (serve_all hashed requests desk).0 ≡ 2
unfolding count serve_all send_code verify_code is_known find modify_first lstrip rstrip same
two_guesses = refl

serve_all_guesses_example :
    count (is_guess password_reset anna) (serve_all hashed requests desk).0
    ≤ code_max_attempts
      * count (belongs password_reset anna) (serve_all hashed requests desk).1.codes
serve_all_guesses_example = serve_all_guesses password_reset anna hashed requests desk tt

-- The first token that was given out, which is not verified, is shown for a new password.
abbrev attack : List (Request (Option ℕ))
attack =
    send password_reset 0 0 true (codes "123456") anna
    ∷ verify password_reset 1000000 (codes "000000") (some 0)
    ∷ reset (codes "stolen") (some 0)
    ∷ reset (codes "stolen") none
    ∷ []

fresh : is_proven password_reset anna desk.codes ≡ false
unfolding is_proven
fresh = refl

-- The code that is stored is not the one that was typed in.
untyped :
    (t : Text)
    → has_code anna t (serve_signed hashed attack [] desk).codes ≡ true
    → is_typed attack t ≡ false
unfolding has_code is_typed serve_signed send_code verify_code forgot_password_reset is_known find
    modify_first lstrip rstrip same issued_at
untyped t h = elim (Bool-cases (same t (codes "000000"))) [
  | inr other ↦ rw other refl
  | inl hit ↦ cc (
      sym (
        ap (λ x. has_code anna x (serve_signed hashed attack [] desk).codes)
          (same_eq t (codes "000000") hit))
      ∙ h)
]

serve_signed_untyped_example :
    find (has_email anna) (serve_signed hashed attack [] desk).users
    ≡ find (has_email anna) desk.users
serve_signed_untyped_example = serve_signed_untyped hashed attack desk anna fresh untyped

-- The way of a user who has the mail.
abbrev recovery : List (Request (Option ℕ))
recovery =
    send password_reset 0 0 true (codes "123456") anna
    ∷ verify password_reset 1000000 (codes "123456") (some 0)
    ∷ reset (codes "brand new") (some 0)
    ∷ []

recovered :
    find (has_email anna) (serve_signed hashed recovery [] desk).users
    ≡ some (record { email = anna; password_hash = codes "brand new" })
unfolding serve_signed send_code verify_code forgot_password_reset is_known find modify_first lstrip
    rstrip same issued_at modify
recovered = refl

-- A registration wants another address, and each flow takes an answer in its own name alone.
taken : (register_send_code 0 0 true (codes "123456") anna desk).0 ≡ address_refused
unfolding send_code is_known same
taken = refl

abbrev mailed : Desk
mailed = (forgot_password_send_code 0 0 true (codes "123456") anna desk).1

too_early :
    (forgot_password_resend_code 59000000 0 true (codes "654321") (some token) mailed).0
    ≡ wait_a_minute token
unfolding send_code resend_code is_known find same
too_early = refl

other_flow : (register_verify 1 (codes "123456") (some token) mailed).0 ≡ code_refused token
unfolding send_code verify_code is_known find same
other_flow = refl

own_flow :
    (forgot_password_verify 1 (codes "123456") (some token) mailed).0
    ≡ new_password (record token { verified = true })
unfolding send_code verify_code is_known find same lstrip rstrip
own_flow = refl

stale : (register_resend_code 0 0 true (codes "654321") none mailed).0 ≡ start_over
unfolding resend_code
stale = refl
