-- ===== src/Prelude/Members.antt =====
-- Being one of the rows of a table.
use mathlib.Core.Path.{◌≡◌, sym, ap, ◌∙◌}
use mathlib.Core.Logic.{◌⊎◌, inl, inr}
use mathlib.Core.Bool.{Bool, true, false}
use mathlib.Core.List.{List, [], ◌∷◌, map}
use broadcaster.Prelude.Tests.{if_cases}
use broadcaster.Prelude.Rows.{select}

-- The row is one of the table.
abbrev pub Among : {A : Type 0} → A → List A → Type 0
Among a [] = ⊥
Among a (x ∷ xs) = (a ≡ x) ⊎ Among a xs

module _ {A : Type 0} where
  pub Among-map :
      {B : Type 0} (f : A → B) (xs : List A) (a : A) → Among a xs → Among (f a) (map f xs)
  Among-map f [] a at = absurd at
  Among-map f (x ∷ xs) a (inl e) = inl (ap f e)
  Among-map f (x ∷ xs) a (inr at) = inr (Among-map f xs a at)

  pub Among-select :
      (p : A → Bool) (xs : List A) (a : A) → p a ≡ true → Among a xs → Among a (select p xs)
  unfolding select
  Among-select p [] a h at = absurd at
  Among-select p (x ∷ xs) a h (inl e) =
      if_cases (Among a) (p x) (λ _. inl e) λ off. absurd (differ (sym (ap p e) ∙ h) off)
    where
      differ : p x ≡ true → p x ≡ false → ⊥
      differ on off = cc (on, off)
  Among-select p (x ∷ xs) a h (inr at) =
      if_cases (Among a) (p x) (λ _. inr (Among-select p xs a h at)) (λ _. Among-select p xs a h at)
