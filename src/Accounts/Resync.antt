-- ===== src/Accounts/Resync.antt =====
-- The groups of an account brought into line with a messenger's answer
-- (app/application/accounts/group_resync.py). The answer is not trusted: it may be no list, and an
-- element of it may be no mapping. An identifier and a name are given here as `str` makes them, and
-- a name that Python takes for false is absent. The dictionary of the rows by identifier is the
-- table itself, where identifiers are unique.
pub mod Named
pub mod Marks
pub mod Guard
use broadcaster.Prelude.{
  ℕ, zero, suc, ◌+◌, Bool, true, false, not, ◌&&◌, ◌||◌, Option, none, some, List, [], ◌∷◌, ◌++◌,
  length, count, modify, map, leb, ltb, ◌==◌, if◌then◌else◌,
}

abbrev pub Text : Type 0
Text = List ℕ

unfoldable pub same : Text → Text → Bool
same [] [] = true
same [] (d ∷ ds) = false
same (c ∷ cs) [] = false
same (c ∷ cs) (d ∷ ds) = (c == d) && same cs ds

unfoldable pub is_seen : List Text → Text → Bool
is_seen [] t = false
is_seen (x ∷ xs) t = same t x || is_seen xs t

-- `text[:n]`
unfoldable pub take : ℕ → Text → Text
take zero t = []
take (suc n) [] = []
take (suc n) (c ∷ cs) = c ∷ take n cs

pub data Item : Type 0 where
  not_mapping : Item
  entry : Option Text → Option Text → Item

pub data Fetched : Type 0 where
  not_a_list : Fetched
  items : List Item → Fetched

-- A row of `groups` of the account, by the columns that the synchronisation writes.
pub record Row : Type 0 where
  pub group_external_id : Text
  pub name : Text
  pub missing_since : Option ℕ

pub data SyncError : Type 0 where
  malformed_response empty_response : SyncError
  failure : Text → SyncError

pub record GroupResyncResult : Type 0 where
  pub found : ℕ
  pub created : ℕ
  pub renamed : ℕ
  pub missing : ℕ
  pub error : Option SyncError

pub record Account : Type 0 where
  pub groups : List Row
  pub last_synced_at : Option ℕ
  pub last_sync_result : Option GroupResyncResult

abbrev pub external_id_max : ℕ
external_id_max = 255

abbrev pub name_max : ℕ
name_max = 255

-- The loop's variables: the rows that were there, the rows added, `seen`, `created`, `renamed`.
pub record Progress : Type 0 where
  pub existing : List Row
  pub added : List Row
  pub seen : List Text
  pub created : ℕ
  pub renamed : ℕ

abbrev pub has_external_id : Text → Row → Bool
has_external_id t r = same r.group_external_id t

abbrev pub named : Text → Option Text → Text
named id none = take name_max id
named id (some raw) = take name_max raw

abbrev pub refresh : Text → Row → Row
refresh name r = record r { name = name; missing_since = none }

abbrev pub other_name : Text → Text → Row → Bool
other_name id name r = has_external_id id r && not (same r.name name)

-- One element whose identifier is taken.
abbrev pub take_item : Text → Text → Progress → Progress
take_item id name p =
    if ltb 0 (count (has_external_id id) p.existing)
    then record p {
      existing = modify (has_external_id id) (refresh name) p.existing;
      seen = id ∷ p.seen;
      renamed = p.renamed + count (other_name id name) p.existing;
    }
    else record p {
      added = p.added ++ record { group_external_id = id; name = name; missing_since = none } ∷ [];
      seen = id ∷ p.seen;
      created = p.created + 1;
    }

unfoldable pub next_item : Item → Progress → Progress
next_item not_mapping p = p
next_item (entry none raw) p = p
next_item (entry (some id) raw) p =
    if ltb external_id_max (length id) || is_seen p.seen id
    then p
    else take_item id (named id raw) p

unfoldable pub all_items : List Item → Progress → Progress
all_items [] p = p
all_items (i ∷ is') p = all_items is' (next_item i p)

abbrev pub start : List Row → Progress
start rows = record { existing = rows; added = []; seen = []; created = 0; renamed = 0 }

-- An older mark stays.
abbrev pub marked_at : ℕ → Option ℕ → ℕ
marked_at now none = now
marked_at now (some t) = t

abbrev pub mark : ℕ → Row → Row
mark now r = record r { missing_since = some (marked_at now r.missing_since) }

abbrev pub is_unseen : List Text → Row → Bool
is_unseen seen r = not (is_seen seen r.group_external_id)

-- The rows after the marks.
abbrev pub inventory : ℕ → Progress → List Row
inventory now p = modify (is_unseen p.seen) (mark now) p.existing ++ p.added

abbrev pub failed : SyncError → GroupResyncResult
failed e = record { found = 0; created = 0; renamed = 0; missing = 0; error = some e }

abbrev pub counted : Progress → GroupResyncResult
counted p = record {
  found = length p.seen;
  created = p.created;
  renamed = p.renamed;
  missing = count (is_unseen p.seen) p.existing;
  error = none;
}

abbrev pub is_none_seen : List Text → Bool
is_none_seen [] = true
is_none_seen (t ∷ ts) = false

-- The end of the run, with its guard against an answer that names no group at all. What the loop
-- has changed stays in the session either way.
abbrev pub finish : Bool → ℕ → Progress → Account → GroupResyncResult × Account
finish allow_full_wipe now p a =
    if ltb 0 (length p.existing) && (is_none_seen p.seen && not allow_full_wipe)
    then (
      failed empty_response,
      record a { groups = p.existing ++ p.added; last_sync_result = some (failed empty_response) },
    )
    else (
      counted p,
      record a {
        groups = inventory now p;
        last_synced_at = some now;
        last_sync_result = some (counted p);
      },
    )

unfoldable pub apply_group_resync : Fetched → Bool → ℕ → Account → GroupResyncResult × Account
apply_group_resync not_a_list allow_full_wipe now a =
    (failed malformed_response, record a { last_sync_result = some (failed malformed_response) })
apply_group_resync (items is') allow_full_wipe now a =
    finish allow_full_wipe now (all_items is' (start a.groups)) a

unfoldable pub record_sync_failure : Text → Account → Account
record_sync_failure message a = record a { last_sync_result = some (failed (failure message)) }
