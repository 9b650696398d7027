-- ===== src/Auth/Requests/Guesses.antt =====
-- How often a code can be guessed at (app/pages/auth.py): any requests.
use broadcaster.Prelude.{
  ℕ, ◌+◌, ◌*◌, ◌≤◌, ◌≡◌, ◌∙◌, refl, sym, ap, Bool, true, false, not, ◌&&◌, Option, none, some, List,
  [], ◌∷◌, length, find, count, All, ltb, if◌then◌else◌, arith, Bool-cases, if_cases, inl, inr,
}
use broadcaster.Accounts.Resync.{Text, same}
use broadcaster.Accounts.Resync.Named.{same_eq}
use broadcaster.Auth.Codes.{
  Purpose, registration, password_reset, is_purpose, EmailVerificationCode, Payload, Desk, Screen,
  start_over, address_refused, address_gone, password_changed, code_screen, wait_a_minute,
  code_refused, new_password, short_password, wrong_code, code_max_attempts, is_null, belongs,
  is_current, is_refused, too_soon, is_known, token_of, store_code, send_code, of_flow, resend_to,
  resend_code, strip, modify_first, add_attempt, set_verified, compare, verify_with, verify_code,
  reset_with, forgot_password_reset,
}
use broadcaster.Auth.Requests.{Request, send, resend, verify, reset, serve, serve_all}

-- What a code has been guessed at: the wrong answers, and the right one.
abbrev pub guesses_at : EmailVerificationCode → ℕ
guesses_at c = c.attempts + (if is_null c.verified_at then 0 else 1)

abbrev pub IsFair : EmailVerificationCode → Type 0
IsFair c = guesses_at c ≤ code_max_attempts

pub purpose_eq : (p q : Purpose) → is_purpose p q ≡ true → p ≡ q
purpose_eq registration registration h = refl
purpose_eq registration password_reset h = cc
purpose_eq password_reset registration h = cc
purpose_eq password_reset password_reset h = refl

module _ (purpose : Purpose) (email : Text) where
  unfoldable pub guesses : List EmailVerificationCode → ℕ
  guesses [] = 0
  guesses (c ∷ cs) = (if belongs purpose email c then guesses_at c else 0) + guesses cs

  -- An answer that was compared with a code of the address.
  abbrev pub is_guess : Screen → Bool
  is_guess (wrong_code flow address left) = same address email && is_purpose flow purpose
  is_guess (new_password p) = same p.email email && is_purpose p.purpose purpose
  is_guess start_over = false
  is_guess address_refused = false
  is_guess address_gone = false
  is_guess password_changed = false
  is_guess (code_screen p) = false
  is_guess (wait_a_minute p) = false
  is_guess (code_refused p) = false
  is_guess (short_password p) = false

  guesses_le :
      (cs : List EmailVerificationCode)
      → All IsFair cs
      → guesses cs ≤ code_max_attempts * count (belongs purpose email) cs
  unfolding guesses count
  guesses_le [] fair = omega arith
  guesses_le (c ∷ cs) (first, others) = elim (Bool-cases (belongs purpose email c)) [
    | inl own ↦ rw own (omega (arith, first, guesses_le cs others))
    | inr other ↦ rw other (omega (arith, guesses_le cs others))
  ]

  -- What one served request comes to.
  abbrev Counts : Desk → Screen × Desk → Type 0
  Counts d (screen, after) =
      (guesses after.codes ≡ (if is_guess screen then 1 else 0) + guesses d.codes)
      × All IsFair after.codes

  module _ (flow : Purpose) (address : Text) (now : ℕ) where
    both_left : (a b : Bool) → a && b ≡ true → a ≡ true
    both_left true b h = refl
    both_left false b h = h

    both_right : (a b : Bool) → a && b ≡ true → b ≡ true
    both_right true b h = h
    both_right false b h = cc h

    -- A current code is one of the address that was asked for.
    belongs-current :
        (c : EmailVerificationCode)
        → is_current flow address now c ≡ true
        → belongs purpose email c ≡ same address email && is_purpose flow purpose
    belongs-current c h =
        let own = both_left (belongs flow address c) _ h in
        ap (λ t. same t email && is_purpose c.purpose purpose)
          (same_eq c.email address (both_left (same c.email address) _ own))
        ∙ ap (λ p. same address email && is_purpose p purpose)
            (purpose_eq c.purpose flow (both_right (same c.email address) _ own))

    module _ (f : EmailVerificationCode → EmailVerificationCode)
        (keeps : (c : EmailVerificationCode)
          → belongs purpose email (f c) ≡ belongs purpose email c)
        (adds : (c : EmailVerificationCode)
          → is_current flow address now c ≡ true
          → (guesses_at (f c) ≡ guesses_at c + 1) × (guesses_at (f c) ≤ code_max_attempts)) where
      guesses-modify_first :
          (cs : List EmailVerificationCode) (found : EmailVerificationCode)
          → find (is_current flow address now) cs ≡ some found
          → guesses (modify_first (is_current flow address now) f cs)
            ≡ (if same address email && is_purpose flow purpose then 1 else 0) + guesses cs
      unfolding find modify_first guesses
      guesses-modify_first [] found e = cc e
      guesses-modify_first (c ∷ cs) found e = elim (Bool-cases (is_current flow address now c)) [
        | inl current ↦
            rw (current, keeps c, belongs-current c current, (adds c current).0)
              (one_more (same address email && is_purpose flow purpose) (guesses_at c) (guesses cs))
        | inr other ↦ rw other (
            omega (
              arith,
              guesses-modify_first cs found (
                  sym (ap (λ b. if b then some c else find (is_current flow address now) cs) other)
                  ∙ e),
            ))
      ]
        where
          one_more :
              (b : Bool) (m n : ℕ)
              → (if b then m + 1 else 0) + n ≡ (if b then 1 else 0) + ((if b then m else 0) + n)
          one_more true m n = omega arith
          one_more false m n = omega arith

      modify_first-IsFair :
          (cs : List EmailVerificationCode)
          → All IsFair cs
          → All IsFair (modify_first (is_current flow address now) f cs)
      unfolding modify_first
      modify_first-IsFair [] fair = tt
      modify_first-IsFair (c ∷ cs) (first, others) =
          if_cases (All IsFair) (is_current flow address now c)
            (λ current. ((adds c current).1, others)) (λ _. (first, modify_first-IsFair cs others))

    -- What a current code can still take.
    room :
        (c : EmailVerificationCode)
        → is_current flow address now c ≡ true
        → (is_null c.verified_at ≡ true) × (ltb c.attempts code_max_attempts ≡ true)
    room c h =
        let usable = both_right (belongs flow address c) _ h in
        (
          both_left (is_null c.verified_at) _ usable,
          both_right (ltb now c.expires_at) _ (both_right (is_null c.verified_at) _ usable),
        )

    add_attempt_adds :
        (c : EmailVerificationCode)
        → is_current flow address now c ≡ true
        → (guesses_at (add_attempt c) ≡ guesses_at c + 1)
          × (guesses_at (add_attempt c) ≤ code_max_attempts)
    add_attempt_adds c h = let left = room c h in rw left.0 (omega arith, ground (arith, left.1))

    set_verified_adds :
        (c : EmailVerificationCode)
        → is_current flow address now c ≡ true
        → (guesses_at (set_verified now c) ≡ guesses_at c + 1)
          × (guesses_at (set_verified now c) ≤ code_max_attempts)
    set_verified_adds c h = let left = room c h in rw left.0 (omega arith, ground (arith, left.1))

  store_code-Counts :
      (flow : Purpose) (now created_at : ℕ) (mailed : Bool) (code address : Text) (d : Desk)
      (p : Payload)
      → All IsFair d.codes
      → Counts d (code_screen p, store_code flow now created_at mailed code address d)
  unfolding guesses
  store_code-Counts flow now created_at mailed code address d p fair =
      (nothing (same address email && is_purpose flow purpose), (omega arith, fair))
    where
      nothing : (b : Bool) → (if b then 0 else 0) + guesses d.codes ≡ 0 + guesses d.codes
      nothing true = refl
      nothing false = refl

  compare-Counts :
      (flow : Purpose) (now : ℕ) (typed : Text) (p : Payload) (d : Desk)
      (o : Option EmailVerificationCode)
      → find (is_current flow p.email now) d.codes ≡ o
      → All IsFair d.codes
      → Counts d (compare flow now typed p o d)
  compare-Counts flow now typed p d none e fair = (omega arith, fair)
  compare-Counts flow now typed p d (some c) e fair =
      if_cases (Counts d) (same c.code (strip typed))
        (λ _. (
          guesses-modify_first flow p.email now (set_verified now) (λ x. refl)
              (set_verified_adds flow p.email now) d.codes c e,
          modify_first-IsFair flow p.email now (set_verified now) (λ x. refl)
              (set_verified_adds flow p.email now) d.codes fair,
        ))
        (λ _. (
          guesses-modify_first flow p.email now add_attempt (λ x. refl)
              (add_attempt_adds flow p.email now) d.codes c e,
          modify_first-IsFair flow p.email now add_attempt (λ x. refl)
              (add_attempt_adds flow p.email now) d.codes fair,
        ))

  verify_code-Counts :
      (flow : Purpose) (now : ℕ) (typed : Text) (o : Option Payload) (d : Desk)
      → All IsFair d.codes
      → Counts d (verify_with flow now typed o d)
  verify_code-Counts flow now typed none d fair = (omega arith, fair)
  verify_code-Counts flow now typed (some p) d fair =
      compare-Counts flow now typed p d (find (is_current flow p.email now) d.codes) refl fair

  resend_code-Counts :
      (flow : Purpose) (now created_at : ℕ) (mailed : Bool) (code : Text) (o : Option Payload)
      (d : Desk)
      → All IsFair d.codes
      → Counts d (resend_to flow now created_at mailed code o d)
  resend_code-Counts flow now created_at mailed code none d fair = (omega arith, fair)
  resend_code-Counts flow now created_at mailed code (some p) d fair =
      if_cases (Counts d) (too_soon flow p.email now d) (λ _. (omega arith, fair))
        (λ _.
          store_code-Counts flow now created_at mailed code p.email d (token_of flow p.email false)
            fair)

  send_code-Counts :
      (flow : Purpose) (now created_at : ℕ) (mailed : Bool) (code address : Text) (d : Desk)
      → All IsFair d.codes
      → Counts d (send_code flow now created_at mailed code address d)
  unfolding send_code
  send_code-Counts flow now created_at mailed code address d fair =
      if_cases (Counts d) (is_refused flow (is_known address d.users)) (λ _. (omega arith, fair))
        λ _.
          if_cases (Counts d) (too_soon flow address now d) (λ _. (omega arith, fair))
            (λ _.
              store_code-Counts flow now created_at mailed code address d
                (token_of flow address false) fair)

  reset_with-Counts :
      (hash_password : Text → Text) (password : Text) (o : Option Payload) (d : Desk)
      → All IsFair d.codes
      → Counts d (reset_with hash_password password o d)
  reset_with-Counts hash_password password none d fair = (omega arith, fair)
  reset_with-Counts hash_password password (some p) d fair =
      if_cases (Counts d) (not p.verified) (λ _. (omega arith, fair))
        λ _.
          if_cases (Counts d) (not (is_known p.email d.users)) (λ _. (omega arith, fair))
            λ _.
              if_cases (Counts d) (ltb (length password) 6) (λ _. (omega arith, fair))
                (λ _. (omega arith, fair))

  module _ (hash_password : Text → Text) where
    serve-Counts :
        (r : Request (Option Payload)) (d : Desk)
        → All IsFair d.codes
        → Counts d (serve hash_password r d)
    unfolding resend_code verify_code forgot_password_reset
    serve-Counts (send flow now created_at mailed code address) d fair =
        send_code-Counts flow now created_at mailed code address d fair
    serve-Counts (resend flow now created_at mailed code token) d fair =
        resend_code-Counts flow now created_at mailed code (of_flow flow token) d fair
    serve-Counts (verify flow now typed token) d fair =
        verify_code-Counts flow now typed (of_flow flow token) d fair
    serve-Counts (reset password token) d fair =
        reset_with-Counts hash_password password (of_flow password_reset token) d fair

    guesses-serve_all :
        (rs : List (Request (Option Payload))) (d : Desk)
        → All IsFair d.codes
        → (guesses (serve_all hash_password rs d).1.codes
            ≡ count is_guess (serve_all hash_password rs d).0 + guesses d.codes)
          × All IsFair (serve_all hash_password rs d).1.codes
    unfolding serve_all count
    guesses-serve_all [] d fair = (omega arith, fair)
    guesses-serve_all (r ∷ rs) d fair =
        let once = serve-Counts r d fair in
        let later = guesses-serve_all rs (serve hash_password r d).1 once.1 in
        (omega (arith, once.0, later.0), later.1)

    -- However many requests for codes, answers to codes and settings of a new password are served one
    -- after the other, at any moments, for whatever addresses and with whatever tokens: the answers that are compared with a code of an address,
    -- wrong ones and right ones together, are at most five for each code that is stored for the
    -- address and the flow in the end, where no code that was
    -- stored before had been answered more than five times.
    pub serve_all_guesses :
        (rs : List (Request (Option Payload))) (d : Desk)
        → All IsFair d.codes
        → count is_guess (serve_all hash_password rs d).0
          ≤ code_max_attempts * count (belongs purpose email) (serve_all hash_password rs d).1.codes
    serve_all_guesses rs d fair =
        let done = guesses-serve_all rs d fair in
        omega (arith, done.0, guesses_le (serve_all hash_password rs d).1.codes done.1)
