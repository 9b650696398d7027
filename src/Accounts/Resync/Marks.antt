-- ===== src/Accounts/Resync/Marks.antt =====
-- After a synchronisation the marks of absence are right, and an answer that is no inventory marks
-- nothing.
use broadcaster.Prelude.{
  ℕ, ◌≤◌, ◌≡◌, ◌∙◌, refl, Bool, true, false, not, ◌||◌, ◌&&◌, none, some, List, [], ◌∷◌, arith, All,
  All-append, All-weaken, count, modify, Bool-cases, inl, inr, ltb, if◌then◌else◌, length,
}
use broadcaster.Accounts.Resync.Named.{same_self, progress, is_named, seen-start, named-kept}
use broadcaster.Accounts.Resync.{
  Text, same, is_seen, Item, not_mapping, entry, items, Row, Account, external_id_max, Progress,
  has_external_id, named, refresh, take_item, next_item, all_items, start, mark, marked_at,
  is_unseen, is_none_seen, finish, apply_group_resync,
}

-- A row that has been seen is not marked.
abbrev SeenIsClear : List Text → Row → Type 0
SeenIsClear seen r = is_seen seen r.group_external_id ≡ true → r.missing_since ≡ none

abbrev IsNew : List Text → Row → Type 0
IsNew seen r = (is_seen seen r.group_external_id ≡ true) × (r.missing_since ≡ none)

abbrev IsSound : Progress → Type 0
IsSound p = All (SeenIsClear p.seen) p.existing × All (IsNew p.seen) p.added

refreshed-SeenIsClear :
    (id name : Text) (seen : List Text) (rows : List Row)
    → All (SeenIsClear seen) rows
    → All (SeenIsClear (id ∷ seen)) (modify (has_external_id id) (refresh name) rows)
unfolding modify is_seen
refreshed-SeenIsClear id name seen [] held = tt
refreshed-SeenIsClear id name seen (r ∷ rows) held = (
  elim (Bool-cases (same r.group_external_id id)) [
    | inl hit ↦ rw hit (λ e. refl)
    | inr miss ↦ rw miss (λ e. held.0 (ground (arith, e, miss)))
  ],
  refreshed-SeenIsClear id name seen rows held.1,
)

absent-SeenIsClear :
    (id : Text) (seen : List Text) (rows : List Row)
    → ltb 0 (count (has_external_id id) rows) ≡ false
    → All (SeenIsClear seen) rows
    → All (SeenIsClear (id ∷ seen)) rows
unfolding count is_seen
absent-SeenIsClear id seen [] none_there held = tt
absent-SeenIsClear id seen (r ∷ rows) none_there held = (
  elim (Bool-cases (same r.group_external_id id)) [
    | inl hit ↦ absurd (ground (arith, hit, none_there))
    | inr miss ↦ rw miss held.0
  ],
  absent-SeenIsClear id seen rows (ground (arith, none_there)) held.1,
)

still-IsNew :
    (id : Text) (seen : List Text) (rows : List Row)
    → All (IsNew seen) rows
    → All (IsNew (id ∷ seen)) rows
unfolding is_seen
still-IsNew id seen rows = All-weaken _ _ rows (λ r h. (ground (arith, h.0), h.1))

take_item-IsSound : (id name : Text) (p : Progress) → IsSound p → IsSound (take_item id name p)
unfolding is_seen
take_item-IsSound id name p held =
    elim (Bool-cases (ltb 0 (count (has_external_id id) p.existing))) [
      | inl there ↦
          rw (take_item, there)
            (
              refreshed-SeenIsClear id name p.seen p.existing held.0,
              still-IsNew id p.seen p.added held.1,
            )
      | inr absent ↦
          rw (take_item, absent)
            (
              absent-SeenIsClear id p.seen p.existing absent held.0,
              All-append _ p.added _ (still-IsNew id p.seen p.added held.1)
                  ((rw (same_self id) refl, refl), tt),
            )
    ]

next_item-IsSound : (i : Item) (p : Progress) → IsSound p → IsSound (next_item i p)
unfolding next_item
next_item-IsSound not_mapping p held = held
next_item-IsSound (entry none raw) p held = held
next_item-IsSound (entry (some id) raw) p held =
    elim (Bool-cases (ltb external_id_max (length id) || is_seen p.seen id)) [
      | inl skipped ↦ rw skipped held
      | inr taken ↦ rw taken (take_item-IsSound id (named id raw) p held)
    ]

all_items-IsSound : (is' : List Item) (p : Progress) → IsSound p → IsSound (all_items is' p)
unfolding all_items
all_items-IsSound [] p held = held
all_items-IsSound (i ∷ is') p held =
    all_items-IsSound is' (next_item i p) (next_item-IsSound i p held)

start-IsSound : (rows : List Row) → All (SeenIsClear []) rows
unfolding is_seen
start-IsSound [] = tt
start-IsSound (r ∷ rows) = ((λ e. cc), start-IsSound rows)

-- The mark of a row by what the loop has seen.
abbrev IsMarkedBy : List Text → Row → Type 0
IsMarkedBy seen r =
    (is_seen seen r.group_external_id ≡ true → r.missing_since ≡ none)
    × (is_seen seen r.group_external_id ≡ false → (t : ℕ) × (r.missing_since ≡ some t))

one-IsMarkedBy :
    (now : ℕ) (seen : List Text) (r : Row)
    → SeenIsClear seen r
    → IsMarkedBy seen (if is_unseen seen r then mark now r else r)
one-IsMarkedBy now seen r clear = elim (Bool-cases (is_seen seen r.group_external_id)) [
  | inl named_there ↦ rw named_there (clear, λ e. cc)
  | inr unnamed ↦ rw unnamed ((λ e. cc), λ e. (marked_at now r.missing_since, refl))
]

inventory-IsMarkedBy :
    (now : ℕ) (seen : List Text) (rows : List Row)
    → All (SeenIsClear seen) rows
    → All (IsMarkedBy seen) (modify (is_unseen seen) (mark now) rows)
unfolding modify
inventory-IsMarkedBy now seen [] held = tt
inventory-IsMarkedBy now seen (r ∷ rows) held =
    (one-IsMarkedBy now seen r held.0, inventory-IsMarkedBy now seen rows held.1)

-- The mark of a row says whether the answer named its group.
abbrev pub IsMarked : List Item → Row → Type 0
IsMarked is' r =
    (is_named is' r.group_external_id ≡ true → r.missing_since ≡ none)
    × (is_named is' r.group_external_id ≡ false → (t : ℕ) × (r.missing_since ≡ some t))

IsMarked-IsMarkedBy :
    (is' : List Item) (a : Account) (r : Row) → IsMarkedBy (progress is' a).seen r → IsMarked is' r
IsMarked-IsMarkedBy is' a r (clear, marked) =
    let same_answer = seen-start is' a.groups r.group_external_id in
    (λ e. clear (same_answer ∙ e), λ e. marked (same_answer ∙ e))

-- A synchronisation that ends without an error leaves a mark of absence on exactly the groups that
-- the answer did not name by an identifier of at most 255 characters: a named group is unmarked, an
-- old one or a new one, and any other is marked. Each group that the answer named has a row.
pub apply_group_resync-IsMarked :
    (is' : List Item) (allow_full_wipe : Bool) (now : ℕ) (a : Account)
    → (apply_group_resync (items is') allow_full_wipe now a).0.error ≡ none
    → All (IsMarked is') (apply_group_resync (items is') allow_full_wipe now a).1.groups
      × ((t : Text)
          → is_named is' t ≡ true
          → 1
            ≤ count
                (has_external_id t)
                (apply_group_resync (items is') allow_full_wipe now a).1.groups)
      × ((apply_group_resync (items is') allow_full_wipe now a).1.last_synced_at ≡ some now)
unfolding apply_group_resync
apply_group_resync-IsMarked is' allow_full_wipe now a =
    let p = progress is' a in
    let sound = all_items-IsSound is' (start a.groups) (start-IsSound a.groups, tt) in
    elim (Bool-cases (ltb 0 (length p.existing) && (is_none_seen p.seen && not allow_full_wipe))) [
      | inl empty ↦ rw (finish, empty) (λ e. cc)
      | inr counted_run ↦
          rw (finish, counted_run)
            (λ e. (
              All-weaken _ _ _ (IsMarked-IsMarkedBy is' a) (
                  All-append _ _ p.added (inventory-IsMarkedBy now p.seen p.existing sound.0) (
                    All-weaken _ _ p.added
                      (λ r h.
                        ((λ named_there. h.1), λ unnamed. absurd (ground (arith, h.0, unnamed))))
                      sound.1)),
              named-kept is' now a,
              refl,
            ))
    ]
