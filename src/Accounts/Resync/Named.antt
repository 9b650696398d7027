-- ===== src/Accounts/Resync/Named.antt =====
-- The groups that an answer names (app/application/accounts/group_resync.py), and what the loop over
-- its elements has seen and kept of them.
use broadcaster.Prelude.{
  ℕ, ◌+◌, ◌≤◌, ◌≡◌, ◌∙◌, refl, ap, leb, Bool, true, false, ◌||◌, ◌&&◌, none, some, List, [], ◌∷◌,
  arith, count, count-append, count-append_one, count-modify_same, modify, if_cases, Bool-cases,
  inl, inr, ltb, length,
}
use broadcaster.Accounts.Resync.{
  Text, same, is_seen, Item, not_mapping, entry, Row, Account, external_id_max, Progress,
  has_external_id, named, refresh, take_item, next_item, all_items, start, mark, is_unseen,
  inventory,
}

pub same_self : (t : Text) → same t t ≡ true
unfolding same
same_self [] = refl
same_self (c ∷ cs) = ground (arith, same_self cs)

pub same_eq : (t s : Text) → same t s ≡ true → t ≡ s
unfolding same
same_eq [] [] h = refl
same_eq [] (d ∷ ds) h = cc
same_eq (c ∷ cs) [] h = cc
same_eq (c ∷ cs) (d ∷ ds) h = ground (arith, same_eq cs ds)

-- What the loop has read of the answer.
abbrev pub progress : List Item → Account → Progress
progress is' a = all_items is' (start a.groups)

-- The answer names a group: an element of it has the identifier, of 255 characters at most.
abbrev pub names : Item → Text → Bool
names not_mapping t = false
names (entry none raw) t = false
names (entry (some id) raw) t = same t id && leb (length id) 255

unfoldable pub is_named : List Item → Text → Bool
is_named [] t = false
is_named (i ∷ is') t = names i t || is_named is' t

same_sym : (t s : Text) → same t s ≡ same s t
unfolding same
same_sym [] [] = refl
same_sym [] (d ∷ ds) = refl
same_sym (c ∷ cs) [] = refl
same_sym (c ∷ cs) (d ∷ ds) = ground (arith, same_sym cs ds)

-- What one element adds to what was seen is the group that it names.
seen-next_item :
    (i : Item) (p : Progress) (t : Text)
    → is_seen (next_item i p).seen t ≡ names i t || is_seen p.seen t
unfolding next_item is_seen
seen-next_item not_mapping p t = refl
seen-next_item (entry none raw) p t = refl
seen-next_item (entry (some id) raw) p t =
    elim (Bool-cases (ltb external_id_max (length id) || is_seen p.seen id)) [
      | inl skipped ↦ rw skipped (passed (same t id) refl skipped)
      | inr taken ↦
          rw taken (seen-take_item (ltb 0 (count (has_external_id id) p.existing)) refl taken)
    ]
  where
    passed :
        (b : Bool)
        → same t id ≡ b
        → ltb external_id_max (length id) || is_seen p.seen id ≡ true
        → is_seen p.seen t ≡ (same t id && leb (length id) 255) || is_seen p.seen t
    passed false e h = rw e refl
    passed true e h = ground (arith, e, h, ap (is_seen p.seen) (same_eq t id e))

    seen-take_item :
        (there : Bool)
        → ltb 0 (count (has_external_id id) p.existing) ≡ there
        → ltb external_id_max (length id) || is_seen p.seen id ≡ false
        → is_seen (take_item id (named id raw) p).seen t
          ≡ (same t id && leb (length id) 255) || is_seen p.seen t
    seen-take_item true e h = rw e (ground (arith, h))
    seen-take_item false e h = rw e (ground (arith, h))

seen-all_items :
    (is' : List Item) (p : Progress) (t : Text)
    → is_seen (all_items is' p).seen t ≡ is_named is' t || is_seen p.seen t
unfolding all_items is_named
seen-all_items [] p t = refl
seen-all_items (i ∷ is') p t =
    ground (arith, seen-all_items is' (next_item i p) t, seen-next_item i p t)

pub seen-start :
    (is' : List Item) (rows : List Row) (t : Text)
    → is_seen (all_items is' (start rows)).seen t ≡ is_named is' t
unfolding is_seen
seen-start is' rows t = ground (arith, seen-all_items is' (start rows) t)

-- What was seen has a row, an old one or a new one.
abbrev IsKept : Progress → Type 0
IsKept p =
    (t : Text)
    → is_seen p.seen t ≡ true
    → 1 ≤ count (has_external_id t) p.existing + count (has_external_id t) p.added

take_item-IsKept :
    (id name : Text) (p : Progress)
    → (there : Bool) → ltb 0 (count (has_external_id id) p.existing) ≡ there
    → IsKept p
    → IsKept (take_item id name p)
unfolding is_seen
take_item-IsKept id name p true e kept t =
    rw
      (
        e,
        count-modify_same (has_external_id t) (has_external_id id) (refresh name) p.existing
            (λ x h. refl),
      )
      (λ h. elim (Bool-cases (same t id)) [
        | inl hit ↦
            ground (arith, e, ap (λ x. count (has_external_id x) p.existing) (same_eq t id hit))
        | inr miss ↦ kept t (ground (arith, h, miss))
      ])
take_item-IsKept id name p false e kept t =
    rw
      (
        e,
        count-append_one (has_external_id t) p.added
            (record { group_external_id = id; name = name; missing_since = none }),
      )
      (λ h. elim (Bool-cases (same t id)) [
        | inl hit ↦ rw (same_sym id t, hit) (omega arith)
        | inr miss ↦ omega (arith, kept t (ground (arith, h, miss)))
      ])

next_item-IsKept : (i : Item) (p : Progress) → IsKept p → IsKept (next_item i p)
unfolding next_item
next_item-IsKept not_mapping p kept = kept
next_item-IsKept (entry none raw) p kept = kept
next_item-IsKept (entry (some id) raw) p kept =
    if_cases IsKept (ltb external_id_max (length id) || is_seen p.seen id) (λ _. kept)
      (λ _. take_item-IsKept id (named id raw) p _ refl kept)

all_items-IsKept : (is' : List Item) (p : Progress) → IsKept p → IsKept (all_items is' p)
unfolding all_items
all_items-IsKept [] p kept = kept
all_items-IsKept (i ∷ is') p kept = all_items-IsKept is' (next_item i p) (next_item-IsKept i p kept)

pub named-kept :
    (is' : List Item) (now : ℕ) (a : Account) (t : Text)
    → is_named is' t ≡ true
    → 1 ≤ count (has_external_id t) (inventory now (progress is' a))
unfolding is_seen
named-kept is' now a t h =
    let p = progress is' a in
    let kept =
      all_items-IsKept is' (start a.groups) (λ u e. cc) t (seen-start is' a.groups t ∙ h) in
    rw
      (
        count-append (has_external_id t) (modify (is_unseen p.seen) (mark now) p.existing) p.added,
        count-modify_same (has_external_id t) (is_unseen p.seen) (mark now) p.existing
            (λ x e. refl),
      )
      kept
