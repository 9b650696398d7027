-- ===== src/Prelude/Rows.antt =====
-- A table of the database as the list of its rows: SELECT with LIMIT 1, COUNT, UPDATE ... WHERE,
-- and their laws. A test on a row is a function into Bool.
use Prim.Native.Nat.{ℕ, suc, ◌+◌, ◌≤◌}
use mathlib.Core.Path.{◌≡◌, refl}
use mathlib.Core.Bool.{Bool, true, false}
use mathlib.Core.Option.{Option, none, some}
use mathlib.Core.List.{List, [], ◌∷◌, ◌++◌}
use native.Mathlib.Omega.{arith}
use broadcaster.Prelude.Tests.{if◌then◌else◌}

module _ {ℓ} {A : Type ℓ} where
  abbrev pub length : List A → ℕ
  length [] = 0
  length (x ∷ xs) = suc (length xs)

  -- SELECT count(*) WHERE p
  unfoldable pub count : (A → Bool) → List A → ℕ
  count p [] = 0
  count p (x ∷ xs) = (if p x then 1 else 0) + count p xs

  -- The first row that passes the test.
  unfoldable pub find : (A → Bool) → List A → Option A
  find p [] = none
  find p (x ∷ xs) = if p x then some x else find p xs

  -- UPDATE ... SET f WHERE p
  unfoldable pub modify : (A → Bool) → (A → A) → List A → List A
  modify p f [] = []
  modify p f (x ∷ xs) = (if p x then f x else x) ∷ modify p f xs

  -- SELECT ... WHERE p
  unfoldable pub select : (A → Bool) → List A → List A
  select p [] = []
  select p (x ∷ xs) = let rest = select p xs in if p x then x ∷ rest else rest

  -- Every row satisfies P.
  abbrev pub All {κ} : (A → Type κ) → List A → Type κ
  All P [] = Unit
  All P (x ∷ xs) = P x × All P xs

  pub count-append : (p : A → Bool) (xs ys : List A) → count p (xs ++ ys) ≡ count p xs + count p ys
  unfolding count
  count-append p [] ys = omega arith
  count-append p (x ∷ xs) ys = omega (arith, count-append p xs ys)

  pub count-append_one :
      (p : A → Bool) (xs : List A) (x : A)
      → count p (xs ++ x ∷ []) ≡ count p xs + (if p x then 1 else 0)
  unfolding count
  count-append_one p [] x = omega arith
  count-append_one p (y ∷ xs) x = omega (arith, count-append_one p xs x)

  pub find-count_zero : (p : A → Bool) (xs : List A) → count p xs ≡ 0 → find p xs ≡ none
  unfolding count find
  find-count_zero p [] h = refl
  find-count_zero p (x ∷ xs) h = ground (arith, find-count_zero p xs)

  pub find-none-count : (p : A → Bool) (xs : List A) → find p xs ≡ none → count p xs ≡ 0
  unfolding count find
  find-none-count p [] h = refl
  find-none-count p (x ∷ xs) h = ground (arith, find-none-count p xs)

  pub find-test : (p : A → Bool) (xs : List A) {x : A} → find p xs ≡ some x → p x ≡ true
  unfolding find
  find-test p [] h = cc
  find-test p (y ∷ xs) {x = x} h = ground (arith, find-test p xs {x = x})

  pub count-le :
      (p q : A → Bool) (xs : List A) → ((x : A) → p x ≡ true → q x ≡ true) → count p xs ≤ count q xs
  unfolding count
  count-le p q [] h = omega arith
  count-le p q (x ∷ xs) h = ground (arith, h x, count-le p q xs h)

  -- An update that makes no row pass a test that it failed before cannot raise the count.
  pub count-modify-le :
      (p q : A → Bool) (f : A → A) (xs : List A)
      → ((x : A) → q x ≡ true → p (f x) ≡ true → p x ≡ true)
      → count p (modify q f xs) ≤ count p xs
  unfolding count modify
  count-modify-le p q f [] h = omega arith
  count-modify-le p q f (x ∷ xs) h = ground (arith, h x, count-modify-le p q f xs h)

  -- An update that leaves a test alone leaves its count alone.
  pub count-modify_same :
      (p q : A → Bool) (f : A → A) (xs : List A)
      → ((x : A) → q x ≡ true → p (f x) ≡ p x)
      → count p (modify q f xs) ≡ count p xs
  unfolding count modify
  count-modify_same p q f [] h = refl
  count-modify_same p q f (x ∷ xs) h = ground (arith, h x, count-modify_same p q f xs h)

  -- After an update whose rows all fail `p`, the rows with `p` are those that were not updated.
  pub count-modify_none :
      (p q : A → Bool) (f : A → A) (xs : List A)
      → ((x : A) → q x ≡ true → p (f x) ≡ false)
      → ((x : A) → p x ≡ true → q x ≡ true)
      → count p (modify q f xs) ≡ 0
  unfolding count modify
  count-modify_none p q f [] h k = refl
  count-modify_none p q f (x ∷ xs) h k = ground (arith, h x, k x, count-modify_none p q f xs h k)

  -- Each updated row may newly pass a test, and no other row does.
  pub count-modify-le_add :
      (p q : A → Bool) (f : A → A) (xs : List A) → count p (modify q f xs) ≤ count p xs + count q xs
  unfolding count modify
  count-modify-le_add p q f [] = omega arith
  count-modify-le_add p q f (x ∷ xs) = ground (arith, count-modify-le_add p q f xs)

  -- An update that touches no row changes nothing.
  pub modify_none : (q : A → Bool) (f : A → A) (xs : List A) → count q xs ≡ 0 → modify q f xs ≡ xs
  unfolding count modify
  modify_none q f [] h = refl
  modify_none q f (x ∷ xs) h = ground (arith, modify_none q f xs)

  pub modify-append :
      (q : A → Bool) (f : A → A) (xs ys : List A)
      → modify q f (xs ++ ys) ≡ modify q f xs ++ modify q f ys
  unfolding modify
  modify-append q f [] ys = refl
  modify-append q f (x ∷ xs) ys = ground (arith, modify-append q f xs ys)

  -- An update by a test that only the appended row passes.
  pub modify-append_one :
      (q : A → Bool) (f : A → A) (xs : List A) (x : A)
      → count q xs ≡ 0
      → q x ≡ true
      → modify q f (xs ++ x ∷ []) ≡ xs ++ f x ∷ []
  unfolding count modify
  modify-append_one q f [] x h e = rw e
  modify-append_one q f (y ∷ xs) x h e = ground (arith, modify-append_one q f xs x)

  pub length-modify : (q : A → Bool) (f : A → A) (xs : List A) → length (modify q f xs) ≡ length xs
  unfolding modify
  length-modify q f [] = refl
  length-modify q f (x ∷ xs) = ground (arith, length-modify q f xs)

  -- Two tables one after the other.
  pub All-append {κ} :
      (P : A → Type κ) (above below : List A) → All P above → All P below → All P (above ++ below)
  All-append P [] below none_above held = held
  All-append P (row ∷ above) below (first, others) held =
      (first, All-append P above below others held)

  pub All-weaken {κ ι} :
      (P : A → Type κ) (Q : A → Type ι) (xs : List A) → ((x : A) → P x → Q x) → All P xs → All Q xs
  All-weaken P Q [] h hx = tt
  All-weaken P Q (x ∷ xs) h hx = (h x hx.0, All-weaken P Q xs h hx.1)

  if_either {κ} : (P : A → Type κ) (b : Bool) {x y : A} → P x → P y → P (if b then x else y)
  if_either P true hx hy = hx
  if_either P false hx hy = hy

  pub All-modify {κ} :
      (P : A → Type κ) (q : A → Bool) (f : A → A) (xs : List A)
      → ((x : A) → P x → P (f x))
      → All P xs
      → All P (modify q f xs)
  unfolding modify
  All-modify P q f [] h hx = tt
  All-modify P q f (x ∷ xs) h hx = (if_either P (q x) (h x hx.0) hx.0, All-modify P q f xs h hx.1)

  -- The row that a query finds is the updated one, where the update keeps the query's test.
  pub find-modify :
      (p q : A → Bool) (f : A → A) (xs : List A) (a : A)
      → ((x : A) → p (f x) ≡ p x)
      → find p xs ≡ some a
      → find p (modify q f xs) ≡ some (if q a then f a else a)
  unfolding find modify
  find-modify p q f [] a h e = cc
  find-modify p q f (x ∷ xs) a h e = ground (arith, h x, find-modify p q f xs a h)

  pub find-modify-none :
      (p q : A → Bool) (f : A → A) (xs : List A)
      → ((x : A) → p (f x) ≡ p x)
      → find p xs ≡ none
      → find p (modify q f xs) ≡ none
  unfolding find modify
  find-modify-none p q f [] h e = refl
  find-modify-none p q f (x ∷ xs) h e = ground (arith, h x, find-modify-none p q f xs h)

  -- Where a test holds of one row at most, two queries that find such a row find the same row.
  pub find-count_pos :
      (p r : A → Bool) (xs : List A) (a : A) → find p xs ≡ some a → r a ≡ true → 1 ≤ count r xs
  unfolding find count
  find-count_pos p r [] a e h = cc
  find-count_pos p r (x ∷ xs) a e h = ground (arith, find-count_pos p r xs a)

  pub find_unique :
      (p q r : A → Bool) (xs : List A) (a b : A)
      → count r xs ≤ 1
      → find p xs ≡ some a
      → find q xs ≡ some b
      → r a ≡ true
      → r b ≡ true
      → a ≡ b
  unfolding find count
  find_unique p q r [] a b u ea eb ha hb = cc
  find_unique p q r (x ∷ xs) a b u ea eb ha hb =
      ground (arith, find_unique p q r xs a b, find-count_pos p r xs a, find-count_pos q r xs b)

  pub find-append_none :
      (p : A → Bool) (xs ys : List A) → find p xs ≡ none → find p (xs ++ ys) ≡ find p ys
  unfolding find
  find-append_none p [] ys e = refl
  find-append_none p (x ∷ xs) ys e = ground (arith, find-append_none p xs ys)

  pub find-append_some :
      (p : A → Bool) (xs ys : List A) (a : A) → find p xs ≡ some a → find p (xs ++ ys) ≡ some a
  unfolding find
  find-append_some p [] ys a e = cc
  find-append_some p (x ∷ xs) ys a e = ground (arith, find-append_some p xs ys a)

  pub length-append_one : (xs : List A) (x : A) → length (xs ++ x ∷ []) ≡ length xs + 1
  length-append_one [] x = omega arith
  length-append_one (y ∷ xs) x = omega (arith, length-append_one xs x)

  -- The row that a query finds stays the one it finds among the rows that are kept, if it is kept.
  pub find-select :
      (p q : A → Bool) (xs : List A) (a : A)
      → find p xs ≡ some a
      → q a ≡ true
      → find p (select q xs) ≡ some a
  unfolding find select
  find-select p q [] a e h = cc
  find-select p q (x ∷ xs) a e h = ground (arith, find-select p q xs a)
