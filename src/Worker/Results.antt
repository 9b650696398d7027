-- ===== src/Worker/Results.antt =====
-- The results that the workers of WhatsApp and MAX report (app/worker/tasks.py, `process_wa_results`,
-- `process_max_results` and the two functions that write a batch, which differ in the messenger's
-- name alone). An element of the list in Redis is given as what `json.loads` makes of it. The
-- constraints of the database are not broken by a row: `commit_ok` says whether the commit succeeds.
pub mod Marks
pub mod Written
use broadcaster.Prelude.{
  ℕ, zero, suc, String, Bool, true, false, not, ◌&&◌, Option, none, some, List, [], ◌∷◌, ◌++◌, find,
  modify, ◌==◌, if◌then◌else◌,
}
use broadcaster.Scheduling.Rules.{is_empty}
use broadcaster.Scheduling.Collect.{has_no_images, Ad, Group, Base, AccountType}
use broadcaster.Worker.Retry.{LogStatus, is_success, get_if_key}

-- A mapping by its keys. A missing key is `none`, and so is a null, but for the user and the status:
-- a null there is a broken constraint of the row.
pub record Result : Type 0 where
  pub user_id : Option ℕ
  pub schedule_id : Option ℕ
  pub ad_id : Option ℕ
  pub group_id : Option ℕ
  pub task_id : Option String
  pub status : Option LogStatus
  pub error_message : Option (List ℕ)
  pub ad_title : Option String
  pub ad_text : Option String
  pub ad_images : Option (List (List ℕ))
  pub group_name : Option String
  pub no_retry : Bool

-- What `json.loads` gives: a mapping, or a value of another type.
pub data Parsed : Type 0 where
  object : Result → Parsed
  not_object : Parsed

-- An element of the list: the empty text, a text that is no JSON, bytes that are no text, or a value.
pub data Raw : Type 0 where
  empty_text unreadable undecodable : Raw
  json : Parsed → Raw

-- The row of `send_logs` that a result becomes.
pub record ResultLog : Type 0 where
  pub user_id : ℕ
  pub schedule_id : Option ℕ
  pub ad_id : Option ℕ
  pub group_id : Option ℕ
  pub task_id : Option String
  pub status : LogStatus
  pub error_message : Option (List ℕ)
  pub messenger_type : AccountType
  pub ad_title : Option String
  pub ad_text : Option String
  pub ad_images : Option (List (List ℕ))
  pub group_name : Option String

abbrev pub with_first : Parsed → Option (List Parsed) → Option (List Parsed)
with_first p none = none
with_first p (some ps) = some (p ∷ ps)

-- At most so many `lpop`s; the loop stops at the end of the list, and at an empty text. Bytes that
-- cannot be decoded raise past the loop, and what was popped is `none`.
unfoldable pub drain : ℕ → List Raw → Option (List Parsed) × List Raw
drain zero queue = (some [], queue)
drain (suc n) [] = (some [], [])
drain (suc n) (empty_text ∷ queue) = (some [], queue)
drain (suc n) (unreadable ∷ queue) = drain n queue
drain (suc n) (undecodable ∷ queue) = (none, queue)
drain (suc n) (json p ∷ queue) = let (popped, rest) = drain n queue in (with_first p popped, rest)

-- `range(100)`
abbrev pub batch_size : ℕ
batch_size = 100

-- The keys of the ad stand in for the addresses that the worker was given.
abbrev pub images_of : Option Ad → Option (List (List ℕ)) → Option (List (List ℕ))
images_of none reported = reported
images_of (some ad) reported = if has_no_images ad.images then reported else ad.images

abbrev pub found_ad : List Ad → ℕ → Option Ad
found_ad ads i = find (λ (x : Ad). x.id == i) ads

abbrev pub row_of : AccountType → List Ad → ℕ → LogStatus → Result → ResultLog
row_of messenger ads user_id status r = record {
  user_id = user_id;
  schedule_id = r.schedule_id;
  ad_id = r.ad_id;
  group_id = r.group_id;
  task_id = r.task_id;
  status = status;
  error_message = r.error_message;
  messenger_type = messenger;
  ad_title = r.ad_title;
  ad_text = r.ad_text;
  ad_images = images_of (get_if_key (found_ad ads) r.ad_id) r.ad_images;
  group_name = r.group_name;
}

-- The session's tables.
pub record Session : Type 0 where
  pub tables : Base
  pub logs : List ResultLog

abbrev pub set_mark : Option (List ℕ) → Option ℕ → Group → Group
set_mark error at g = record g { last_error = error; error_at = at }

abbrev pub is_group : ℕ → Group → Bool
is_group i g = g.id == i

abbrev pub mark_group : ℕ → (Group → Group) → Base → Base
mark_group i f b = record b { groups = modify (is_group i) f b.groups }

-- A lasting error marks the group, a success takes the mark off, another failure does neither.
abbrev pub marked : ℕ → LogStatus → Result → ℕ → Base → Base
marked now status r i b =
    if r.no_retry
    then mark_group i (set_mark r.error_message (some now)) b
    else if is_success status
    then mark_group i (set_mark none none) b
    else b

abbrev pub with_group : ℕ → LogStatus → Result → Option ℕ → Base → Base
with_group now status r none b = b
with_group now status r (some i) b = if i == 0 then b else marked now status r i b

abbrev pub write_row : AccountType → ℕ → Option ℕ → Option LogStatus → Result → Session → Session
write_row messenger now (some user_id) (some status) r s = record {
  tables = with_group now status r r.group_id s.tables;
  logs = s.logs ++ row_of messenger s.tables.ads user_id status r ∷ [];
}
write_row messenger now _ _ r s = s

-- One result. A mapping without its user or its status is passed over; on any other value the
-- handler of the exception raises in its turn, which ends the batch.
abbrev pub write_result : AccountType → ℕ → Parsed → Session → Option Session
write_result messenger now not_object s = none
write_result messenger now (object r) s = some (write_row messenger now r.user_id r.status r s)

unfoldable pub write_results : AccountType → ℕ → List Parsed → Session → Option Session
write_results messenger now [] s = some s
write_results messenger now (p ∷ ps) s = elim (write_result messenger now p s) [
  | none ↦ none
  | some s' ↦ write_results messenger now ps s'
]

-- The commit at the end of the batch; without it the tables stay as they were.
abbrev pub kept_or : Bool → Session → Option Session → Session
kept_or commit_ok s none = s
kept_or commit_ok s (some s') = if commit_ok then s' else s

abbrev pub write_popped : AccountType → ℕ → Option (List Parsed) → Session → Option Session
write_popped messenger now none s = none
write_popped messenger now (some ps) s = write_results messenger now ps s

unfoldable pub process_results : AccountType → ℕ → Bool → List Raw → Session → List Raw × Session
process_results messenger now commit_ok queue s =
    let (popped, rest) = drain batch_size queue in
    (rest, kept_or commit_ok s (write_popped messenger now popped s))
