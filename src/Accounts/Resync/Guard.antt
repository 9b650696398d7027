-- ===== src/Accounts/Resync/Guard.antt =====
-- An answer that names no group changes no row.
use broadcaster.Prelude.{
  ℕ, ◌≤◌, ◌≡◌, refl, ◌∙◌, true, false, ◌||◌, none, some, List, [], ◌∷◌, ◌++◌, arith, Bool-cases,
  inl, inr, ltb, lt→ltb, length, count,
}
use broadcaster.Accounts.Resync.{
  Text, is_seen, Item, not_mapping, entry, items, Row, Account, external_id_max, Progress, named,
  has_external_id, take_item, next_item, all_items, start, failed, empty_response, is_none_seen,
  finish, apply_group_resync,
}
use broadcaster.Accounts.Resync.Named.{progress}

rows-append : (rows : List Row) → rows ++ [] ≡ rows
rows-append [] = refl
rows-append (r ∷ rows) = rw (rows-append rows) refl

take_item-seen : (id name : Text) (p : Progress) → is_none_seen (take_item id name p).seen ≡ false
take_item-seen id name p = elim (Bool-cases (ltb 0 (count (has_external_id id) p.existing))) [
  | inl there ↦ rw (take_item, there) refl
  | inr absent ↦ rw (take_item, absent) refl
]

next_item-same :
    (i : Item) (p : Progress) → is_none_seen (next_item i p).seen ≡ true → next_item i p ≡ p
unfolding next_item
next_item-same not_mapping p = λ e. refl
next_item-same (entry none raw) p = λ e. refl
next_item-same (entry (some id) raw) p =
    elim (Bool-cases (ltb external_id_max (length id) || is_seen p.seen id)) [
      | inl skipped ↦ rw skipped (λ e. refl)
      | inr taken ↦ rw taken (λ e. absurd (ground (arith, e, take_item-seen id (named id raw) p)))
    ]

next_item-grows :
    (i : Item) (p : Progress)
    → is_none_seen p.seen ≡ false
    → is_none_seen (next_item i p).seen ≡ false
unfolding next_item
next_item-grows not_mapping p e = e
next_item-grows (entry none raw) p e = e
next_item-grows (entry (some id) raw) p e =
    elim (Bool-cases (ltb external_id_max (length id) || is_seen p.seen id)) [
      | inl skipped ↦ rw skipped e
      | inr taken ↦ rw taken (take_item-seen id (named id raw) p)
    ]

all_items-grows :
    (is' : List Item) (p : Progress)
    → is_none_seen p.seen ≡ false
    → is_none_seen (all_items is' p).seen ≡ false
unfolding all_items
all_items-grows [] p e = e
all_items-grows (i ∷ is') p e = all_items-grows is' (next_item i p) (next_item-grows i p e)

all_items-same :
    (is' : List Item) (p : Progress)
    → is_none_seen (all_items is' p).seen ≡ true
    → all_items is' p ≡ p
unfolding all_items
all_items-same [] p e = refl
all_items-same (i ∷ is') p e = elim (Bool-cases (is_none_seen (next_item i p).seen)) [
  | inl idle ↦ all_items-same is' (next_item i p) e ∙ next_item-same i p idle
  | inr named_one ↦ absurd (ground (arith, e, all_items-grows is' (next_item i p) named_one))
]

-- The guard: an answer of which no element can be read, an empty one included, marks nothing as
-- gone. The rows and the moment of the last synchronisation stay, and the summary tells the error,
-- unless the caller allows a full wipe or the account has no groups.
pub apply_group_resync_guard :
    (is' : List Item) (now : ℕ) (a : Account)
    → is_none_seen (progress is' a).seen ≡ true
    → 1 ≤ length a.groups
    → apply_group_resync (items is') false now a
      ≡ (failed empty_response, record a { last_sync_result = some (failed empty_response) })
unfolding apply_group_resync
apply_group_resync_guard is' now a e some_group =
    rw
      (
        all_items-same is' (start a.groups) e,
        finish,
        lt→ltb 0 (length a.groups) some_group,
        rows-append a.groups,
      )
      refl
