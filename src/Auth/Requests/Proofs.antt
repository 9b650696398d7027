-- ===== src/Auth/Requests/Proofs.antt =====
-- What a right answer to a code proves (app/pages/auth.py), and that no request forgets it.
use broadcaster.Prelude.{
  ℕ, ◌≡◌, ◌∙◌, refl, sym, ap, Bool, true, false, not, ◌&&◌, ◌||◌, Option, none, some, List, [], ◌∷◌,
  find, if◌then◌else◌, Bool-cases, if_cases, inl, inr,
}
use broadcaster.Accounts.Resync.{Text}
use broadcaster.Auth.Codes.{
  Purpose, EmailVerificationCode, Payload, is_null, belongs, is_current, modify_first, set_verified,
}

-- A code of the address was answered rightly in this flow.
abbrev pub is_answered : Purpose → Text → EmailVerificationCode → Bool
is_answered flow email c = belongs flow email c && not (is_null c.verified_at)

unfoldable pub is_proven : Purpose → Text → List EmailVerificationCode → Bool
is_proven flow email [] = false
is_proven flow email (c ∷ cs) = is_answered flow email c || is_proven flow email cs

-- A verified token has such a code behind it.
abbrev pub Backed : List EmailVerificationCode → Payload → Type 0
Backed codes p = p.verified ≡ true → is_proven p.purpose p.email codes ≡ true

abbrev pub BackedToken : List EmailVerificationCode → Option Payload → Type 0
BackedToken codes none = Unit
BackedToken codes (some p) = Backed codes p

-- No proof is forgotten.
abbrev pub KeepsProofs : List EmailVerificationCode → List EmailVerificationCode → Type 0
KeepsProofs before after =
    (flow : Purpose) (email : Text)
    → is_proven flow email before ≡ true
    → is_proven flow email after ≡ true

pub or_right : (a b : Bool) → b ≡ true → a || b ≡ true
or_right true b h = refl
or_right false b h = h

pub or_left : (a b : Bool) → a ≡ true → a || b ≡ true
or_left true b h = refl
or_left false b h = cc h

pub or_mono :
    (a a' b b' : Bool)
    → (a ≡ true → a' ≡ true)
    → (b ≡ true → b' ≡ true)
    → a || b ≡ true
    → a' || b' ≡ true
or_mono true a' b b' f g h = or_left a' b' (f refl)
or_mono false a' b b' f g h = or_right a' b' (g h)

module _ (p : EmailVerificationCode → Bool) (f : EmailVerificationCode → EmailVerificationCode)
    (keeps : (flow : Purpose) (email : Text) (c : EmailVerificationCode)
      → is_answered flow email c ≡ true
      → is_answered flow email (f c) ≡ true) where
  pub modify_first-KeepsProofs :
      (cs : List EmailVerificationCode) → KeepsProofs cs (modify_first p f cs)
  unfolding modify_first is_proven
  modify_first-KeepsProofs [] flow email h = h
  modify_first-KeepsProofs (c ∷ cs) flow email h =
      if_cases (λ (x : List EmailVerificationCode). is_proven flow email x ≡ true) (p c)
        (λ _.
          or_mono (is_answered flow email c) _ (is_proven flow email cs) _ (keeps flow email c)
            (λ k. k) h)
        (λ _.
          or_mono (is_answered flow email c) _ (is_proven flow email cs) _ (λ k. k)
            (modify_first-KeepsProofs cs flow email) h)

pub verified_keeps :
    (now : ℕ) (flow : Purpose) (email : Text) (c : EmailVerificationCode)
    → is_answered flow email c ≡ true
    → is_answered flow email (set_verified now c) ≡ true
verified_keeps now flow email c h =
    by_belongs (belongs flow email c) (not (is_null c.verified_at)) h
  where
    by_belongs : (a b : Bool) → a && b ≡ true → a && true ≡ true
    by_belongs true b h = refl
    by_belongs false b h = h

-- The right answer proves the address.
pub verified_proves :
    (flow : Purpose) (email : Text) (now : ℕ) (cs : List EmailVerificationCode)
    (found : EmailVerificationCode)
    → find (is_current flow email now) cs ≡ some found
    → is_proven flow email (modify_first (is_current flow email now) (set_verified now) cs) ≡ true
unfolding find modify_first is_proven
verified_proves flow email now [] found e = cc e
verified_proves flow email now (c ∷ cs) found e = elim (Bool-cases (is_current flow email now c)) [
  | inl current ↦
      rw current (or_left (belongs flow email c && true) _ (owned (belongs flow email c) _ current))
  | inr other ↦ rw other (
      or_right (is_answered flow email c) _ (
        verified_proves flow email now cs found
          (sym (ap (λ b. if b then some c else find (is_current flow email now) cs) other) ∙ e)))
]
  where
    owned : (a b : Bool) → a && b ≡ true → a && true ≡ true
    owned true b h = refl
    owned false b h = h
