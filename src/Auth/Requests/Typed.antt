-- ===== src/Auth/Requests/Typed.antt =====
-- A new password takes a code that was mailed (app/pages/auth.py): what the requests have typed.
use broadcaster.Prelude.{
  ℕ, ◌≡◌, ◌∙◌, refl, sym, ap, Bool, true, false, not, ◌&&◌, ◌||◌, ◌⊎◌, inl, inr, Option, none, some,
  List, [], ◌∷◌, ◌++◌, length, find, find-test, ltb, if◌then◌else◌, Bool-cases, if_cases,
}
use broadcaster.Accounts.Resync.{Text, same}
use broadcaster.Accounts.Resync.Named.{same_self}
use broadcaster.Auth.Codes.{
  Purpose, password_reset, is_purpose, EmailVerificationCode, Payload, Desk, Screen, belongs,
  is_current, is_refused, too_soon, is_known, has_email, store_code, send_code, of_flow, resend_to,
  resend_code, strip, modify_first, add_attempt, set_verified, compare, verify_with, verify_code,
  reset_with, forgot_password_reset,
}
use broadcaster.Auth.Requests.{
  Request, send, resend, verify, reset, serve, tokens_of, shown, present, serve_signed,
}
use broadcaster.Auth.Requests.Guesses.{purpose_eq}
use broadcaster.Auth.Requests.Proofs.{is_answered, is_proven, or_right, or_left, or_mono}
use broadcaster.Auth.Requests.Earned.{serve_signed_unproven}

-- The answer that a request types in for a forgotten password.
abbrev pub types : Request (Option ℕ) → Text → Bool
types (send flow now created_at mailed code address) t = false
types (resend flow now created_at mailed code token) t = false
types (verify flow now typed token) t = is_purpose flow password_reset && same t (strip typed)
types (reset password token) t = false

unfoldable pub is_typed : List (Request (Option ℕ)) → Text → Bool
is_typed [] t = false
is_typed (r ∷ rs) t = types r t || is_typed rs t

and_left : (a b : Bool) → a && b ≡ true → a ≡ true
and_left true b h = refl
and_left false b h = h

and_right : (a b : Bool) → a && b ≡ true → b ≡ true
and_right true b h = h
and_right false b h = cc h

both : (a b : Bool) → a ≡ true → b ≡ true → a && b ≡ true
both true b h k = k
both false b h k = h

module _ (email : Text) where
  -- A code for a forgotten password that is stored for the address.
  abbrev is_code : Text → EmailVerificationCode → Bool
  is_code t c = belongs password_reset email c && same t c.code

  unfoldable pub has_code : Text → List EmailVerificationCode → Bool
  has_code t [] = false
  has_code t (c ∷ cs) = is_code t c || has_code t cs

  found-has_code :
      (p : EmailVerificationCode → Bool) (cs : List EmailVerificationCode)
      (c : EmailVerificationCode)
      → find p cs ≡ some c
      → belongs password_reset email c ≡ true
      → has_code c.code cs ≡ true
  unfolding find has_code
  found-has_code p [] c e own = cc e
  found-has_code p (x ∷ xs) c e own = elim (Bool-cases (p x)) [
    | inl hit ↦ or_left (is_code c.code x) _ (
        ap (λ y. is_code c.code y) (first hit)
        ∙ both (belongs password_reset email c) _ own (same_self c.code))
    | inr miss ↦ or_right (is_code c.code x) _ (found-has_code p xs c (later miss) own)
  ]
    where
      first : p x ≡ true → x ≡ c
      first hit = cc (sym (ap (λ b. if b then some x else find p xs) hit) ∙ e)

      later : p x ≡ false → find p xs ≡ some c
      later miss = sym (ap (λ b. if b then some x else find p xs) miss) ∙ e

  module _ (p : EmailVerificationCode → Bool) (f : EmailVerificationCode → EmailVerificationCode)
      (keeps : (t : Text) (c : EmailVerificationCode) → is_code t (f c) ≡ is_code t c) where
    has_code-modify_first :
        (t : Text) (cs : List EmailVerificationCode)
        → has_code t cs ≡ true
        → has_code t (modify_first p f cs) ≡ true
    unfolding has_code modify_first
    has_code-modify_first t [] h = h
    has_code-modify_first t (c ∷ cs) h =
        if_cases (λ (x : List EmailVerificationCode). has_code t x ≡ true) (p c)
          (λ _. or_mono (is_code t c) _ (has_code t cs) _ (λ k. keeps t c ∙ k) (λ k. k) h)
          (λ _. or_mono (is_code t c) _ (has_code t cs) _ (λ k. k) (has_code-modify_first t cs) h)

    proven-modify_first :
        (cs : List EmailVerificationCode) (c : EmailVerificationCode)
        → find p cs ≡ some c
        → is_answered password_reset email (f c) ≡ is_answered password_reset email c
        → is_proven password_reset email (modify_first p f cs) ≡ is_proven password_reset email cs
    unfolding find modify_first is_proven
    proven-modify_first [] c e same_row = refl
    proven-modify_first (x ∷ xs) c e same_row = elim (Bool-cases (p x)) [
      | inl hit ↦ rw hit (
          ap (λ b. b || is_proven password_reset email xs)
            (ap (λ y. is_answered password_reset email (f y)) (first hit)
              ∙ same_row
              ∙ sym (ap (λ y. is_answered password_reset email y) (first hit))))
      | inr miss ↦ rw miss (
          ap (λ b. is_answered password_reset email x || b)
            (proven-modify_first xs c (later miss) same_row))
    ]
      where
        first : p x ≡ true → x ≡ c
        first hit = cc (sym (ap (λ b. if b then some x else find p xs) hit) ∙ e)

        later : p x ≡ false → find p xs ≡ some c
        later miss = sym (ap (λ b. if b then some x else find p xs) miss) ∙ e

  -- What one served request may do, by what it types.
  abbrev IsHonest : (Text → Bool) → Desk → Desk → Type 0
  IsHonest typed d after =
      ((t : Text) → has_code t d.codes ≡ true → has_code t after.codes ≡ true)
      × (is_proven password_reset email d.codes ≡ false
          → (is_proven password_reset email after.codes ≡ false)
            ⊎ ((t : Text) × (has_code t d.codes ≡ true) × (typed t ≡ true)))

  unchanged : (typed : Text → Bool) (d : Desk) → IsHonest typed d d
  unchanged typed d = (λ t h. h, λ h. inl h)

  store_code-IsHonest :
      (typed : Text → Bool) (flow : Purpose) (now created_at : ℕ) (mailed : Bool)
      (code address : Text) (d : Desk)
      → IsHonest typed d (store_code flow now created_at mailed code address d)
  unfolding has_code is_proven
  store_code-IsHonest typed flow now created_at mailed code address d = (
    λ t h. or_right ((same address email && is_purpose flow password_reset) && same t code) _ h,
    λ h. inl (no_answer (same address email && is_purpose flow password_reset) h),
  )
    where
      no_answer :
          (b : Bool)
          → is_proven password_reset email d.codes ≡ false
          → (b && false) || is_proven password_reset email d.codes ≡ false
      no_answer true h = h
      no_answer false h = h

  compare-IsHonest :
      (flow : Purpose) (now : ℕ) (answer : Text) (p : Payload) (d : Desk)
      (o : Option EmailVerificationCode)
      → find (is_current flow p.email now) d.codes ≡ o
      → IsHonest
          (λ t. is_purpose flow password_reset && same t (strip answer))
          d
          (compare flow now answer p o d).1
  compare-IsHonest flow now answer p d none e = unchanged _ d
  compare-IsHonest flow now answer p d (some c) e =
      if_cases
        (λ (r : Screen × Desk).
          IsHonest (λ t. is_purpose flow password_reset && same t (strip answer)) d r.1)
        (same c.code (strip answer))
        (λ right. (
          λ t.
              has_code-modify_first (is_current flow p.email now) (set_verified now) (λ _ _. refl) t
                d.codes,
          λ h. elim (Bool-cases (belongs password_reset email c)) [
            | inl own ↦ inr (
              c.code,
              found-has_code (is_current flow p.email now) d.codes c e own,
              both (is_purpose flow password_reset) _ (of_flow_too own) right,
            )
            | inr other ↦ inl (
                proven-modify_first (is_current flow p.email now) (set_verified now) (λ _ _. refl)
                  d.codes c e (rw other refl)
                ∙ h)
          ],
        ))
        (λ wrong. (
          λ t.
              has_code-modify_first (is_current flow p.email now) add_attempt (λ _ _. refl) t
                d.codes,
          λ h. inl (
              proven-modify_first (is_current flow p.email now) add_attempt (λ _ _. refl) d.codes c
                e refl
              ∙ h),
        ))
    where
      of_flow_too : belongs password_reset email c ≡ true → is_purpose flow password_reset ≡ true
      of_flow_too own =
          ap (λ x. is_purpose x password_reset)
            (sym (
              purpose_eq c.purpose flow (
                and_right (same c.email p.email) _ (
                  and_left (belongs flow p.email c) _
                    (find-test (is_current flow p.email now) d.codes e)))))
          ∙ and_right (same c.email email) _ own

  verify_with-IsHonest :
      (flow : Purpose) (now : ℕ) (answer : Text) (o : Option Payload) (d : Desk)
      → IsHonest
          (λ t. is_purpose flow password_reset && same t (strip answer))
          d
          (verify_with flow now answer o d).1
  verify_with-IsHonest flow now answer none d = unchanged _ d
  verify_with-IsHonest flow now answer (some p) d =
      compare-IsHonest flow now answer p d (find (is_current flow p.email now) d.codes) refl

  resend_to-IsHonest :
      (typed : Text → Bool) (flow : Purpose) (now created_at : ℕ) (mailed : Bool) (code : Text)
      (o : Option Payload) (d : Desk)
      → IsHonest typed d (resend_to flow now created_at mailed code o d).1
  resend_to-IsHonest typed flow now created_at mailed code none d = unchanged typed d
  resend_to-IsHonest typed flow now created_at mailed code (some p) d =
      if_cases (λ (r : Screen × Desk). IsHonest typed d r.1) (too_soon flow p.email now d)
        (λ _. unchanged typed d)
        (λ _. store_code-IsHonest typed flow now created_at mailed code p.email d)

  send_code-IsHonest :
      (typed : Text → Bool) (flow : Purpose) (now created_at : ℕ) (mailed : Bool)
      (code address : Text) (d : Desk)
      → IsHonest typed d (send_code flow now created_at mailed code address d).1
  unfolding send_code
  send_code-IsHonest typed flow now created_at mailed code address d =
      if_cases (λ (r : Screen × Desk). IsHonest typed d r.1)
        (is_refused flow (is_known address d.users)) (λ _. unchanged typed d)
        λ _.
          if_cases (λ (r : Screen × Desk). IsHonest typed d r.1) (too_soon flow address now d)
            (λ _. unchanged typed d)
            (λ _. store_code-IsHonest typed flow now created_at mailed code address d)

  module _ (hash_password : Text → Text) where
    -- A new password leaves the codes alone.
    reset_with-IsHonest :
        (typed : Text → Bool) (password : Text) (o : Option Payload) (d : Desk)
        → IsHonest typed d (reset_with hash_password password o d).1
    reset_with-IsHonest typed password none d = unchanged typed d
    reset_with-IsHonest typed password (some p) d =
        if_cases (λ (r : Screen × Desk). IsHonest typed d r.1) (not p.verified)
          (λ _. unchanged typed d)
          λ _.
            if_cases (λ (r : Screen × Desk). IsHonest typed d r.1) (not (is_known p.email d.users))
              (λ _. unchanged typed d)
              λ _.
                if_cases (λ (r : Screen × Desk). IsHonest typed d r.1) (ltb (length password) 6)
                  (λ _. unchanged typed d) (λ _. unchanged typed d)

    serve-IsHonest :
        (r : Request (Option ℕ)) (issued : List Payload) (d : Desk)
        → IsHonest (types r) d (serve hash_password (present issued r) d).1
    unfolding resend_code verify_code forgot_password_reset
    serve-IsHonest (send flow now created_at mailed code address) issued d =
        send_code-IsHonest _ flow now created_at mailed code address d
    serve-IsHonest (resend flow now created_at mailed code token) issued d =
        resend_to-IsHonest _ flow now created_at mailed code (of_flow flow (shown issued token)) d
    serve-IsHonest (verify flow now answer token) issued d =
        verify_with-IsHonest flow now answer (of_flow flow (shown issued token)) d
    serve-IsHonest (reset password token) issued d =
        reset_with-IsHonest _ password (of_flow password_reset (shown issued token)) d

    has_code-serve_signed :
        (t : Text) (rs : List (Request (Option ℕ))) (issued : List Payload) (d : Desk)
        → has_code t d.codes ≡ true
        → has_code t (serve_signed hash_password rs issued d).codes ≡ true
    unfolding serve_signed
    has_code-serve_signed t [] issued d h = h
    has_code-serve_signed t (r ∷ rs) issued d h =
        let next = serve hash_password (present issued r) d in
        has_code-serve_signed t rs (tokens_of next.0 ++ issued) next.1
          ((serve-IsHonest r issued d).0 t h)

    unproven-untyped :
        (rs : List (Request (Option ℕ))) (issued : List Payload) (d : Desk)
        → is_proven password_reset email d.codes ≡ false
        → ((t : Text)
            → has_code t (serve_signed hash_password rs issued d).codes ≡ true
            → is_typed rs t ≡ false)
        → is_proven password_reset email (serve_signed hash_password rs issued d).codes ≡ false
    unfolding serve_signed is_typed
    unproven-untyped [] issued d h untyped = h
    unproven-untyped (r ∷ rs) issued d h untyped =
        let next = serve hash_password (present issued r) d in
        let later = tokens_of next.0 ++ issued in
        elim ((serve-IsHonest r issued d).1 h) [
          | inl still ↦
              unproven-untyped rs later next.1 still
                (λ t has. or_false_right (types r t) (is_typed rs t) (untyped t has))
          | inr (t, has, typed) ↦ absurd (
              clash (or_left (types r t) (is_typed rs t) typed) (
                untyped t
                  (has_code-serve_signed t rs later next.1 ((serve-IsHonest r issued d).0 t has))))
        ]
      where
        or_false_right : (a b : Bool) → a || b ≡ false → b ≡ false
        or_false_right true b k = cc k
        or_false_right false b k = k

        clash : {b : Bool} → b ≡ true → b ≡ false → ⊥
        clash on off = cc (on, off)

-- A forgotten password cannot be set without the code: after any requests for codes, answers to codes
-- and settings of a new password, in any order, at any moments and with any tokens that the program
-- gave out on the way, the user of an address is stored as before, if no code of the address was
-- marked as answered before the first request, and no answer that was typed in for a forgotten
-- password, without the blanks around it, is a code that is stored for the address in this flow.
pub serve_signed_untyped :
    (hash_password : Text → Text) (rs : List (Request (Option ℕ))) (d : Desk) (email : Text)
    → is_proven password_reset email d.codes ≡ false
    → ((t : Text)
        → has_code email t (serve_signed hash_password rs [] d).codes ≡ true
        → is_typed rs t ≡ false)
    → find (has_email email) (serve_signed hash_password rs [] d).users
      ≡ find (has_email email) d.users
serve_signed_untyped hash_password rs d email fresh untyped =
    serve_signed_unproven hash_password rs d email
      (unproven-untyped email hash_password rs [] d fresh untyped)
