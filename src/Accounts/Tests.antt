-- ===== src/Accounts/Tests.antt =====
-- A synchronisation of an account with two groups.
use broadcaster.Prelude.{
  ◌≤◌, ◌≡◌, refl, true, false, none, some, List, [], ◌∷◌, All, arith, count, modify,
}
use broadcaster.Accounts.Resync.{
  Text, has_external_id, take, same, is_seen, Item, not_mapping, entry, items, Account, next_item,
  all_items, failed, empty_response, apply_group_resync, is_none_seen,
}
use broadcaster.Accounts.Resync.Named.{is_named, progress}
use broadcaster.Accounts.Resync.Marks.{IsMarked, apply_group_resync-IsMarked}
use broadcaster.Accounts.Resync.Guard.{apply_group_resync_guard}

abbrev account : Account
account = record {
  groups =
      record { group_external_id = 1 ∷ []; name = 5 ∷ []; missing_since = some 3 }
      ∷ record { group_external_id = 2 ∷ []; name = 6 ∷ []; missing_since = none }
      ∷ [];
  last_synced_at = none;
  last_sync_result = none;
}

-- The first group under a new name, twice, a new group, and rubbish.
abbrev answer : List Item
answer =
    entry (some (1 ∷ [])) (some (7 ∷ []))
    ∷ not_mapping
    ∷ entry (some (1 ∷ [])) none
    ∷ entry (some (4 ∷ [])) none
    ∷ []

no_error : (apply_group_resync (items answer) false 9 account).0.error ≡ none
unfolding apply_group_resync all_items next_item is_seen same count modify
no_error = refl

counters :
    ((apply_group_resync (items answer) false 9 account).0.created ≡ 1)
    × ((apply_group_resync (items answer) false 9 account).0.renamed ≡ 1)
    × ((apply_group_resync (items answer) false 9 account).0.missing ≡ 1)
unfolding apply_group_resync all_items next_item is_seen same count modify take
counters = (refl, refl, refl)

apply_group_resync-IsMarked_example :
    All (IsMarked answer) (apply_group_resync (items answer) false 9 account).1.groups
    × ((t : Text)
        → is_named answer t ≡ true
        → 1
          ≤ count (has_external_id t) (apply_group_resync (items answer) false 9 account).1.groups)
    × ((apply_group_resync (items answer) false 9 account).1.last_synced_at ≡ some 9)
apply_group_resync-IsMarked_example = apply_group_resync-IsMarked answer false 9 account no_error

nobody : is_none_seen (progress (not_mapping ∷ []) account).seen ≡ true
unfolding all_items next_item
nobody = refl

apply_group_resync_guard_example :
    apply_group_resync (items (not_mapping ∷ [])) false 9 account
    ≡ (failed empty_response, record account { last_sync_result = some (failed empty_response) })
apply_group_resync_guard_example =
    apply_group_resync_guard (not_mapping ∷ []) 9 account nobody (omega arith)
