-- ===== src/Images/Owner.antt =====
-- The key of an upload is its user's, and no one else's (app/services/image_keys.py and
-- app/services/image_upload.py).
use broadcaster.Prelude.{
  ℕ, zero, suc, ◌+◌, ◌/◌, ◌≤◌, ◌<◌, ◌≡◌, ◌∙◌, refl, sym, ap, true, false, Option, some, [], ◌∷◌,
  ◌++◌, length, ltb, ◌==◌, arith, Bool-cases, if_cases, inl, inr,
}
use broadcaster.Prelude.Decimal.{str, digits, str_injective}
use broadcaster.Accounts.Resync.{Text, same, take}
use broadcaster.Accounts.Resync.Named.{same_self, same_eq}
use broadcaster.Images.Keys.{
  is_digit, is_hex, is_safe, all_of, drop, span, is_tail, is_number, full_match, is_group_of,
  is_own, starts_with, thumb_key, thumb_key_prefix,
}
use broadcaster.Images.Upload.{safe_filename, retarget_extension, upload_key}
use broadcaster.Images.Names.{retarget_extension_fits}

-- The decimal text of a number.
all_of-digits :
    (f n : ℕ) (out : Text) → all_of is_digit out ≡ true → all_of is_digit (digits f n out) ≡ true
unfolding all_of digits
all_of-digits zero n out h = h
all_of-digits (suc f) n out h =
    if_cases (λ (t : Text). all_of is_digit t ≡ true) (ltb n 10) (λ _. ground arith)
      (λ _. all_of-digits f (n / 10) _ (ground arith))

digits-is_number : (f n : ℕ) (out : Text) → n < f → 1 ≤ n → is_number (digits f n out) ≡ true
unfolding digits
digits-is_number zero n out h k = absurd (omega arith)
digits-is_number (suc f) n out h k =
    if_cases (λ (t : Text). is_number t ≡ true) (ltb n 10) (λ small. ground arith)
      (λ large. digits-is_number f (n / 10) _ (ground arith) (ground arith))

str_number : (n : ℕ) → 1 ≤ n → (all_of is_digit (str n) ≡ true) × (is_number (str n) ≡ true)
unfolding str all_of
str_number n h = (all_of-digits (n + 1) n [] refl, digits-is_number (n + 1) n [] (omega arith) h)

-- The parts of a key.
span-append :
    (ds rest : Text) → all_of is_digit ds ≡ true → span (ds ++ (b'/' ∷ rest)) ≡ (ds, b'/' ∷ rest)
unfolding span all_of
span-append [] rest h = refl
span-append (c ∷ ds) rest h = ground (arith, span-append ds rest)

take-append : (n : ℕ) (t s : Text) → length t ≡ n → take n (t ++ s) ≡ t
unfolding take
take-append zero [] s h = refl
take-append zero (c ∷ cs) s h = absurd (omega (arith, h))
take-append (suc n) [] s h = absurd (omega (arith, h))
take-append (suc n) (c ∷ cs) s h = ap (λ t. c ∷ t) (take-append n cs s (omega (arith, h)))

drop-append : (n : ℕ) (t s : Text) → length t ≡ n → drop n (t ++ s) ≡ s
unfolding drop
drop-append zero [] s h = refl
drop-append zero (c ∷ cs) s h = absurd (omega (arith, h))
drop-append (suc n) [] s h = absurd (omega (arith, h))
drop-append (suc n) (c ∷ cs) s h = drop-append n cs s (omega (arith, h))

-- Two users have the same decimal text only if they are one.
same-str : (u v : ℕ) → same (str u) (str v) ≡ (u == v)
same-str u v = elim (Bool-cases (u == v)) [
  | inl e ↦ rw e (ap (λ k. same (str u) (str k)) (sym (one u v e)) ∙ same_self (str u))
  | inr e ↦ rw e (elim (Bool-cases (same (str u) (str v))) [
    | inr differ ↦ differ
    | inl alike ↦ absurd (two u v e (str_injective u v (same_eq (str u) (str v) alike)))
  ])
]
  where
    one : (m n : ℕ) → (m == n) ≡ true → m ≡ n
    one m n h = ground arith

    two : (m n : ℕ) → (m == n) ≡ false → m ≡ n → ⊥
    two m n h k = ground arith

module _ (user_id : ℕ) (token : Text) (filename : Option Text) (extension : Text)
    (registered : 1 ≤ user_id) (hex : all_of is_hex token ≡ true) (long : length token ≡ 32)
    (safe : all_of is_safe extension ≡ true) (short : length extension ≤ 94) where
  name : Text
  name = retarget_extension (safe_filename filename) extension

  is_tail-name : is_tail (b'/' ∷ token ++ (b'_' ∷ name)) ≡ true
  unfolding name
  is_tail-name =
      let fits = retarget_extension_fits filename extension safe short in
      rw (take-append 32 token (b'_' ∷ name) long, drop-append 32 token (b'_' ∷ name) long, hex)
        (ground (arith, fits))

  full_match-upload_key :
      full_match (upload_key user_id token filename extension) ≡ some (str user_id)
  unfolding full_match upload_key name
  full_match-upload_key =
      let number = str_number user_id registered in
      rw (span-append (str user_id) (token ++ (b'_' ∷ name)) number.0, number.1, is_tail-name) refl

  -- The key under which an upload is stored is the own key of the user who sent it and of no one
  -- else, whatever name the file came with: path segments, foreign characters and any length
  -- included. The token is 32 hexadecimal digits, and the extension has safe characters, at most 94.
  pub is_own-upload_key :
      (other : ℕ) → is_own other (upload_key user_id token filename extension) ≡ (user_id == other)
  unfolding is_own
  is_own-upload_key other = rw full_match-upload_key (same-str user_id other)

-- A thumbnail's key is no one's attachment.
pub is_own-thumb_key : (other : ℕ) (key : Text) → is_own other (thumb_key key) ≡ false
unfolding is_own full_match span thumb_key starts_with
is_own-thumb_key other [] = refl
is_own-thumb_key other (c ∷ cs) =
    if_cases (λ (k : Text). is_group_of other (full_match k) ≡ false)
      (starts_with thumb_key_prefix (c ∷ cs)) (λ starts. not_number c starts) (λ _. refl)
  where
    not_number :
        (c : ℕ)
        → starts_with thumb_key_prefix (c ∷ cs) ≡ true
        → is_group_of other (full_match (c ∷ cs)) ≡ false
    not_number c starts = let letter : is_digit c ≡ false = ground (arith, starts) in rw letter refl
