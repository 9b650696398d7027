-- ===== src/Auth/Requests/Earned.antt =====
-- Who can set a new password (app/pages/auth.py): any requests, with tokens that the program signed.
use broadcaster.Prelude.{
  ℕ, zero, suc, ◌+◌, ◌-◌, ◌≡◌, ◌∙◌, refl, sym, ap, Bool, true, false, not, ◌&&◌, Option, none, some,
  List, [], ◌∷◌, ◌++◌, length, find, find-modify, find-modify-none, find-test, All, All-append,
  All-weaken, ltb, if◌then◌else◌, Bool-cases, Option-cases, if_cases, inl, inr,
}
use broadcaster.Accounts.Resync.{Text, same}
use broadcaster.Accounts.Resync.Named.{same_eq, same_self}
use broadcaster.Auth.Requests.Guesses.{purpose_eq}
use broadcaster.Auth.Codes.{
  Purpose, registration, password_reset, is_purpose, EmailVerificationCode, User, Payload, Desk,
  Screen, start_over, address_refused, address_gone, password_changed, code_screen, wait_a_minute,
  code_refused, new_password, short_password, wrong_code, code_max_attempts, is_current, is_refused,
  too_soon, is_known, has_email, token_of, store_code, send_code, of_flow, resend_to, resend_code,
  strip, add_attempt, set_verified, on_current, compare, verify_with, verify_code, set_password,
  reset_with, forgot_password_reset,
}
use broadcaster.Auth.Requests.{
  Request, send, resend, verify, reset, serve, tokens_of, issued_at, shown, present, serve_signed,
}
use broadcaster.Auth.Requests.Proofs.{
  is_proven, Backed, BackedToken, KeepsProofs, or_right, modify_first-KeepsProofs, verified_keeps,
  verified_proves,
}

-- What one served request may do.
abbrev IsSound : Desk → Screen × Desk → Type 0
IsSound d (screen, after) =
    All (Backed after.codes) (tokens_of screen)
    × KeepsProofs d.codes after.codes
    × ((email : Text)
        → is_proven password_reset email after.codes ≡ false
        → find (has_email email) after.users ≡ find (has_email email) d.users)

unproved :
    (flow : Purpose) (email : Text) (codes : List EmailVerificationCode)
    → Backed codes (token_of flow email false)
unproved flow email codes h = cc h

store_code-KeepsProofs :
    (flow : Purpose) (now created_at : ℕ) (mailed : Bool) (code address : Text) (d : Desk)
    → KeepsProofs d.codes (store_code flow now created_at mailed code address d).codes
unfolding is_proven
store_code-KeepsProofs flow now created_at mailed code address d other email h =
    or_right ((same address email && is_purpose flow other) && false) _ h

users_kept :
    (d : Desk) (screen : Screen) (after : Desk)
    → All (Backed after.codes) (tokens_of screen)
    → KeepsProofs d.codes after.codes
    → after.users ≡ d.users
    → IsSound d (screen, after)
users_kept d screen after tokens proofs users =
    (tokens, proofs, λ email _. ap (λ us. find (has_email email) us) users)

store_code-IsSound :
    (flow : Purpose) (now created_at : ℕ) (mailed : Bool) (code address : Text) (d : Desk)
    → IsSound d (
      code_screen (token_of flow address false),
      store_code flow now created_at mailed code address d,
    )
store_code-IsSound flow now created_at mailed code address d =
    let after = store_code flow now created_at mailed code address d in
    users_kept d (code_screen (token_of flow address false)) after
      (unproved flow address after.codes, tt)
      (store_code-KeepsProofs flow now created_at mailed code address d) refl

compare-IsSound :
    (flow : Purpose) (now : ℕ) (typed : Text) (p : Payload) (d : Desk)
    (o : Option EmailVerificationCode)
    → find (is_current flow p.email now) d.codes ≡ o
    → Backed d.codes p
    → IsSound d (compare flow now typed p o d)
compare-IsSound flow now typed p d none e backed =
    users_kept d (code_refused p) d (backed, tt) (λ _ _ h. h) refl
compare-IsSound flow now typed p d (some c) e backed =
    if_cases (IsSound d) (same c.code (strip typed))
      (λ _.
        users_kept d (new_password (token_of flow p.email true))
          (on_current (set_verified now) flow p.email now d)
          (λ _. verified_proves flow p.email now d.codes c e, tt)
          (modify_first-KeepsProofs (is_current flow p.email now) (set_verified now)
            (verified_keeps now) d.codes)
          refl)
      (λ _.
        users_kept d (wrong_code flow p.email (code_max_attempts - (c.attempts + 1)))
          (on_current add_attempt flow p.email now d) tt
          (modify_first-KeepsProofs (is_current flow p.email now) add_attempt (λ _ _ _ h. h)
            d.codes)
          refl)

verify_with-IsSound :
    (flow : Purpose) (now : ℕ) (typed : Text) (o : Option Payload) (d : Desk)
    → BackedToken d.codes o
    → IsSound d (verify_with flow now typed o d)
verify_with-IsSound flow now typed none d backed = users_kept d start_over d tt (λ _ _ h. h) refl
verify_with-IsSound flow now typed (some p) d backed =
    compare-IsSound flow now typed p d (find (is_current flow p.email now) d.codes) refl backed

resend_to-IsSound :
    (flow : Purpose) (now created_at : ℕ) (mailed : Bool) (code : Text) (o : Option Payload)
    (d : Desk)
    → BackedToken d.codes o
    → IsSound d (resend_to flow now created_at mailed code o d)
resend_to-IsSound flow now created_at mailed code none d backed =
    users_kept d start_over d tt (λ _ _ h. h) refl
resend_to-IsSound flow now created_at mailed code (some p) d backed =
    if_cases (IsSound d) (too_soon flow p.email now d)
      (λ _. users_kept d (wait_a_minute p) d (backed, tt) (λ _ _ h. h) refl)
      (λ _. store_code-IsSound flow now created_at mailed code p.email d)

send_code-IsSound :
    (flow : Purpose) (now created_at : ℕ) (mailed : Bool) (code address : Text) (d : Desk)
    → IsSound d (send_code flow now created_at mailed code address d)
unfolding send_code
send_code-IsSound flow now created_at mailed code address d =
    if_cases (IsSound d) (is_refused flow (is_known address d.users))
      (λ _. users_kept d address_refused d tt (λ _ _ h. h) refl)
      λ _.
        if_cases (IsSound d) (too_soon flow address now d)
          (λ _.
            users_kept d (wait_a_minute (token_of flow address false)) d
              (unproved flow address d.codes, tt) (λ _ _ h. h) refl)
          (λ _. store_code-IsSound flow now created_at mailed code address d)

-- The password of one address is written, and no other.
set_password_others :
    (hash_password : Text → Text) (address password : Text) (d : Desk) (email : Text)
    → (same address email ≡ false)
    → find (has_email email) (set_password hash_password address password d).users
      ≡ find (has_email email) d.users
set_password_others hash_password address password d email other =
    elim (Option-cases (find (has_email email) d.users)) [
      | inl e ↦
          find-modify-none (has_email email) (has_email address) write d.users (λ u. refl) e ∙ sym e
      | inr (u, e) ↦
          find-modify (has_email email) (has_email address) write d.users u (λ x. refl) e
          ∙ ap some (not_written u (find-test (has_email email) d.users e))
          ∙ sym e
    ]
  where
    write : User → User
    write u = record u { password_hash = hash_password password }

    not_written :
        (u : User) → has_email email u ≡ true → (if has_email address u then write u else u) ≡ u
    not_written u h =
        if_cases (λ (x : User). x ≡ u) (has_email address u)
          (λ k. absurd (clash (same_eq u.email email h) (same_eq u.email address k))) (λ _. refl)
      where
        clash : u.email ≡ email → u.email ≡ address → ⊥
        clash a b = cc (sym (ap (λ t. same address t) (sym b ∙ a)) ∙ same_self address, other)

of_flow-Backed :
    (codes : List EmailVerificationCode) (flow : Purpose) (o : Option Payload)
    → BackedToken codes o
    → BackedToken codes (of_flow flow o)
of_flow-Backed codes registration none backed = tt
of_flow-Backed codes password_reset none backed = tt
of_flow-Backed codes registration (some p) backed = backed
of_flow-Backed codes password_reset (some p) backed =
    if_cases (BackedToken codes) (is_purpose p.purpose password_reset) (λ _. backed) (λ _. tt)

module _ (hash_password : Text → Text) where
  -- A verified token of the flow.
  proven_sets :
      (password : Text) (p : Payload) (d : Desk)
      → is_proven password_reset p.email d.codes ≡ true
      → IsSound d (password_changed, set_password hash_password p.email password d)
  proven_sets password p d proven = (
    tt,
    λ _ _ h. h,
    λ email unproven.
        set_password_others hash_password p.email password d email (other email unproven),
  )
    where
      other :
          (email : Text)
          → is_proven password_reset email d.codes ≡ false
          → same p.email email ≡ false
      other email unproven = elim (Bool-cases (same p.email email)) [
        | inr e ↦ e
        | inl e ↦ cc (
          sym (ap (λ t. is_proven password_reset t d.codes) (same_eq p.email email e)) ∙ proven,
          unproven,
        )
      ]

  reset_own :
      (password : Text) (p : Payload) (d : Desk)
      → Backed d.codes p
      → p.purpose ≡ password_reset
      → IsSound d (reset_with hash_password password (some p) d)
  reset_own password p d backed own =
      if_cases (IsSound d) (not p.verified) (λ _. users_kept d start_over d tt (λ _ _ h. h) refl)
        λ verified.
          if_cases (IsSound d) (not (is_known p.email d.users))
            (λ _. users_kept d address_gone d tt (λ _ _ h. h) refl)
            λ _.
              if_cases (IsSound d) (ltb (length password) 6)
                (λ _.
                  users_kept d (short_password (token_of password_reset p.email true)) d
                    (λ _. proven verified, tt) (λ _ _ h. h) refl)
                (λ _. proven_sets password p d (proven verified))
    where
      is_verified : (b : Bool) → not b ≡ false → b ≡ true
      is_verified true h = refl
      is_verified false h = cc h

      proven : not p.verified ≡ false → is_proven password_reset p.email d.codes ≡ true
      proven h = ap (λ f. is_proven f p.email d.codes) (sym own) ∙ backed (is_verified p.verified h)

  reset_with-IsSound :
      (password : Text) (o : Option Payload) (d : Desk)
      → BackedToken d.codes o
      → IsSound d (reset_with hash_password password (of_flow password_reset o) d)
  reset_with-IsSound password none d backed = users_kept d start_over d tt (λ _ _ h. h) refl
  reset_with-IsSound password (some p) d backed =
      if_cases (λ (o : Option Payload). IsSound d (reset_with hash_password password o d))
        (is_purpose p.purpose password_reset)
        (λ own. reset_own password p d backed (purpose_eq p.purpose password_reset own))
        (λ _. users_kept d start_over d tt (λ _ _ h. h) refl)

  issued_at-Backed :
      (codes : List EmailVerificationCode) (n : ℕ) (issued : List Payload)
      → All (Backed codes) issued
      → BackedToken codes (issued_at n issued)
  unfolding issued_at
  issued_at-Backed codes zero [] backed = tt
  issued_at-Backed codes (suc n) [] backed = tt
  issued_at-Backed codes zero (p ∷ ps) (first, others) = first
  issued_at-Backed codes (suc n) (p ∷ ps) (first, others) = issued_at-Backed codes n ps others

  shown-Backed :
      (codes : List EmailVerificationCode) (issued : List Payload) (o : Option ℕ)
      → All (Backed codes) issued
      → BackedToken codes (shown issued o)
  shown-Backed codes issued none backed = tt
  shown-Backed codes issued (some n) backed = issued_at-Backed codes n issued backed

  serve-IsSound :
      (r : Request (Option ℕ)) (issued : List Payload) (d : Desk)
      → All (Backed d.codes) issued
      → IsSound d (serve hash_password (present issued r) d)
  unfolding resend_code verify_code forgot_password_reset
  serve-IsSound (send flow now created_at mailed code address) issued d backed =
      send_code-IsSound flow now created_at mailed code address d
  serve-IsSound (resend flow now created_at mailed code token) issued d backed =
      resend_to-IsSound flow now created_at mailed code (of_flow flow (shown issued token)) d (
        of_flow-Backed d.codes flow (shown issued token) (shown-Backed d.codes issued token backed))
  serve-IsSound (verify flow now typed token) issued d backed =
      verify_with-IsSound flow now typed (of_flow flow (shown issued token)) d (
        of_flow-Backed d.codes flow (shown issued token) (shown-Backed d.codes issued token backed))
  serve-IsSound (reset password token) issued d backed =
      reset_with-IsSound password (shown issued token) d (shown-Backed d.codes issued token backed)

  unproven_before :
      (email : Text) (before after : List EmailVerificationCode)
      → KeepsProofs before after
      → is_proven password_reset email after ≡ false
      → is_proven password_reset email before ≡ false
  unproven_before email before after keeps h =
      elim (Bool-cases (is_proven password_reset email before)) [
        | inr e ↦ e
        | inl e ↦ cc (keeps password_reset email e, h)
      ]

  serve_signed-IsSound :
      (rs : List (Request (Option ℕ))) (issued : List Payload) (d : Desk)
      → All (Backed d.codes) issued
      → KeepsProofs d.codes (serve_signed hash_password rs issued d).codes
        × ((email : Text)
            → is_proven password_reset email (serve_signed hash_password rs issued d).codes ≡ false
            → find (has_email email) (serve_signed hash_password rs issued d).users
              ≡ find (has_email email) d.users)
  unfolding serve_signed
  serve_signed-IsSound [] issued d backed = (λ _ _ h. h, λ _ _. refl)
  serve_signed-IsSound (r ∷ rs) issued d backed =
      let next = serve hash_password (present issued r) d in
      let (tokens, keeps, users) = serve-IsSound r issued d backed in
      let (later_keeps, later_users) = serve_signed-IsSound rs (tokens_of next.0 ++ issued) next.1 (
        All-append (Backed next.1.codes) (tokens_of next.0) issued tokens (
          All-weaken (Backed d.codes) (Backed next.1.codes) issued
            (λ p b verified. keeps p.purpose p.email (b verified)) backed)) in
      (
        λ flow email h. later_keeps flow email (keeps flow email h),
        λ email unproven.
            later_users email unproven
            ∙ users email (
                unproven_before email next.1.codes
                  (serve_signed hash_password rs (tokens_of next.0 ++ issued) next.1).codes
                  later_keeps unproven),
      )

  -- A user of whose address no stored code for a new password is marked as answered is stored as
  -- before.
  pub serve_signed_unproven :
      (rs : List (Request (Option ℕ))) (d : Desk) (email : Text)
      → is_proven password_reset email (serve_signed hash_password rs [] d).codes ≡ false
      → find (has_email email) (serve_signed hash_password rs [] d).users
        ≡ find (has_email email) d.users
  serve_signed_unproven rs d email unproven = (serve_signed-IsSound rs [] d tt).1 email unproven
