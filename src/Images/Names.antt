-- ===== src/Images/Names.antt =====
-- The name that a key ends in (app/services/image_upload.py): its characters and its length.
use broadcaster.Prelude.{
  ℕ, zero, suc, ◌+◌, ◌-◌, ◌≤◌, ◌≡◌, refl, Bool, true, Option, none, some, List, [], ◌∷◌, ◌++◌,
  length, map, arith, Bool-cases, if_cases, inl, inr,
}
use broadcaster.Accounts.Resync.{Text, take}
use broadcaster.Images.Keys.{is_safe, all_of}
use broadcaster.Images.Upload.{
  max_filename_length, or_fallback, clean, safe_filename, lower, ends_with, last_segment,
  strip_extension, known_image_extensions, retarget_extension,
}

module _ (p : ℕ → Bool) where
  pub all_of-take : (n : ℕ) (t : Text) → all_of p t ≡ true → all_of p (take n t) ≡ true
  unfolding all_of take
  all_of-take zero t h = refl
  all_of-take (suc n) [] h = refl
  all_of-take (suc n) (c ∷ cs) h = ground (arith, all_of-take n cs)

  pub all_of-append :
      (t s : Text) → all_of p t ≡ true → all_of p s ≡ true → all_of p (t ++ s) ≡ true
  unfolding all_of
  all_of-append [] s h k = k
  all_of-append (c ∷ cs) s h k = ground (arith, all_of-append cs s)

length-take-le : (n : ℕ) (t : Text) → length (take n t) ≤ n
unfolding take
length-take-le zero t = omega arith
length-take-le (suc n) [] = omega arith
length-take-le (suc n) (c ∷ cs) = omega (arith, length-take-le n cs)

pub length-append : (t s : Text) → length (t ++ s) ≡ length t + length s
length-append [] s = omega arith
length-append (c ∷ cs) s = omega (arith, length-append cs s)

clean_safe : (c : ℕ) → is_safe (clean c) ≡ true
clean_safe c = elim (Bool-cases (is_safe c)) [ inl e ↦ rw e e | inr e ↦ rw e refl ]

all_of-clean : (t : Text) → all_of is_safe (map clean t) ≡ true
unfolding all_of
all_of-clean [] = refl
all_of-clean (c ∷ cs) = rw (clean_safe c) (all_of-clean cs)

or_fallback_safe : (t : Text) → all_of is_safe t ≡ true → all_of is_safe (or_fallback t) ≡ true
unfolding all_of
or_fallback_safe [] h = refl
or_fallback_safe (c ∷ cs) h = h

length-or_fallback :
    (t : Text) (n : ℕ)
    → 6 ≤ n
    → length t ≤ n
    → (1 ≤ length (or_fallback t)) × (length (or_fallback t) ≤ n)
length-or_fallback [] n h k = (omega arith, omega arith)
length-or_fallback (c ∷ cs) n h k = (omega arith, k)

safe_filename_safe : (filename : Option Text) → all_of is_safe (safe_filename filename) ≡ true
unfolding safe_filename all_of
safe_filename_safe none = refl
safe_filename_safe (some []) = refl
safe_filename_safe (some (c ∷ cs)) =
    or_fallback_safe (take max_filename_length (map clean (last_segment (c ∷ cs)))) (
      all_of-take is_safe max_filename_length (map clean (last_segment (c ∷ cs)))
        (all_of-clean (last_segment (c ∷ cs))))

strip_extension_safe :
    (known : List Text) (t : Text)
    → all_of is_safe t ≡ true
    → all_of is_safe (strip_extension known t) ≡ true
unfolding strip_extension
strip_extension_safe [] t h = h
strip_extension_safe (k ∷ known) t h =
    if_cases (λ (x : Text). all_of is_safe x ≡ true) (ends_with k (map lower t))
      (λ _. all_of-take is_safe _ t h) (λ _. strip_extension_safe known t h)

-- The stored name has safe characters alone, one at least and a hundred at most.
pub retarget_extension_fits :
    (filename : Option Text) (extension : Text)
    → all_of is_safe extension ≡ true
    → length extension ≤ 94
    → (all_of is_safe (retarget_extension (safe_filename filename) extension) ≡ true)
      × (1 ≤ length (retarget_extension (safe_filename filename) extension))
      × (length (retarget_extension (safe_filename filename) extension) ≤ max_filename_length)
unfolding retarget_extension
retarget_extension_fits filename extension safe short =
    let base = strip_extension known_image_extensions (safe_filename filename) in
    let cut = take (max_filename_length - length extension) base in
    let fits =
      length-or_fallback cut (max_filename_length - length extension) (omega arith)
        (length-take-le (max_filename_length - length extension) base) in
    (
      all_of-append is_safe (or_fallback cut) extension
          (or_fallback_safe cut (
            all_of-take is_safe _ base (
              strip_extension_safe known_image_extensions (safe_filename filename)
                (safe_filename_safe filename))))
          safe,
      omega (arith, length-append (or_fallback cut) extension, fits.0),
      omega (arith, length-append (or_fallback cut) extension, fits.1),
    )
