-- ===== src/Scheduling/Send.antt =====
-- One send (app/application/scheduling/use_cases.py, `send_message_once`). What builds the messenger
-- of an account, and the messenger, are arguments as in the code: the first gives the text of a
-- `ValueError` or a messenger, and a messenger gives its answer. A text that is printed or compared
-- with the empty one is a list of code points.
pub mod Laws
pub mod Marks
use broadcaster.Prelude.{
  ℕ, String, Bool, true, false, not, Option, none, some, List, [], ◌∷◌, ◌++◌, map, modify, ◌==◌,
  if◌then◌else◌, ◌⊎◌, inl, inr,
}
use broadcaster.Scheduling.Rules.{is_empty}
use broadcaster.Scheduling.Collect.{
  Ad, Account, Group, AccountType, AccountStatus, Base, effective_ad_status, is_draft, is_connected,
  image_urls, has_no_images, ad_of, account_of, group_of,
}

pub data SendStatus : Type 0 where
  sent fail account_disconnected : SendStatus

-- The texts of `error_message`, as what they are built of.
pub data ErrorMessage : Type 0 where
  missing : ErrorMessage
  ad_is_draft : ℕ → ErrorMessage
  account_is : ℕ → AccountStatus → ErrorMessage
  told : List ℕ → ErrorMessage

-- A row of `send_logs`.
pub record SendLog : Type 0 where
  pub user_id : ℕ
  pub schedule_id : Option ℕ
  pub ad_id : ℕ
  pub group_id : ℕ
  pub ad_title : Option String
  pub ad_text : Option String
  pub ad_images : Option (List (List ℕ))
  pub group_name : Option String
  pub messenger_type : Option AccountType
  pub task_id : Option ℕ
  pub status : SendStatus
  pub error_message : Option ErrorMessage

-- The arguments of `messenger.send_message`, and its answer.
pub record Message : Type 0 where
  pub group_id : String
  pub body : String
  pub images : Option (List (List ℕ))

pub record Answer : Type 0 where
  pub is_ok : Bool
  pub error : Option (List ℕ)
  pub no_retry : Bool

abbrev pub Messenger : Type 0
Messenger = Message → Answer

pub record Desk : Type 0 where
  pub tables : Base
  pub logs : List SendLog
  pub calls : List Message

-- The arguments of `send_message_once`.
pub record Order : Type 0 where
  pub ad_id : ℕ
  pub group_id : ℕ
  pub account_id : ℕ
  pub schedule_id : Option ℕ
  pub task_id : Option ℕ

-- A call returns, or raises after a failed send.
pub data Ending : Type 0 where
  returned : Ending
  send_failed : Option (List ℕ) → Ending

abbrev pub on {ℓ} : {A : Type ℓ} {B : Type ℓ} → (A → B) → Option A → Option B
on f none = none
on f (some x) = some (f x)

abbrev pub or_zero : Option ℕ → ℕ
or_zero none = 0
or_zero (some n) = n

abbrev images_of_ad : Option Ad → Option (List (List ℕ))
images_of_ad none = none
images_of_ad (some ad) = ad.images

-- The row that a send writes, whatever was found of its ad, group and account.
abbrev pub log_row :
    Order → Option Ad → Option Group → Option Account → SendStatus → Option ErrorMessage → SendLog
log_row o ad group account status error = record {
  user_id = or_zero (on (λ (x : Ad). x.user_id) ad);
  schedule_id = o.schedule_id;
  ad_id = o.ad_id;
  group_id = o.group_id;
  ad_title = on (λ (x : Ad). x.title) ad;
  ad_text = on (λ (x : Ad). x.body) ad;
  ad_images = images_of_ad ad;
  group_name = on (λ (x : Group). x.name) group;
  messenger_type = on (λ (x : Account). x.type') account;
  task_id = o.task_id;
  status = status;
  error_message = error;
}

abbrev pub write : SendLog → Desk → Desk
write row d = record d { logs = d.logs ++ row ∷ [] }

-- The images of a message: their addresses, or `None` where the ad has none.
abbrev pub message : List ℕ → Ad → Group → Message
message s3_public_url ad group = record {
  group_id = group.group_external_id;
  body = ad.body;
  images = if has_no_images ad.images then none else image_urls s3_public_url ad.images;
}

abbrev pub set_group : ℕ → (Group → Group) → Desk → Desk
set_group i f d = record d {
  tables = record d.tables { groups = modify (λ (g : Group). g.id == i) f d.tables.groups };
}

abbrev pub has_text : Option (List ℕ) → Bool
has_text none = false
has_text (some t) = not (is_empty t)

-- What follows the log row: a lasting error marks the group, a passing one is raised, and a success
-- takes an old mark off.
abbrev pub conclude : Answer → Group → ℕ → Desk → Ending × Desk
conclude a group now d =
    if a.is_ok
    then (
      returned,
      if has_text group.last_error
          then set_group group.id (λ g. record g { last_error = none; error_at = none }) d
          else d,
    )
    else if a.no_retry
    then (
      returned,
      set_group group.id (λ g. record g { last_error = a.error; error_at = some now }) d,
    )
    else (send_failed a.error, d)

abbrev pub answered : Order → Ad → Group → Account → ℕ → Message → Answer → Desk → Ending × Desk
answered o ad group account now m a d = conclude a group now (
    write
      (log_row o (some ad) (some group) (some account) (if a.is_ok then sent else fail)
        (on told a.error))
      (record d { calls = d.calls ++ m ∷ [] }))

abbrev pub with_messenger :
    Order → Ad → Group → Account → List ℕ → ℕ → List ℕ ⊎ Messenger → Desk → Ending × Desk
with_messenger o ad group account s3_public_url now (inl e) d =
    (returned, write (log_row o (some ad) (some group) (some account) fail (some (told e))) d)
with_messenger o ad group account s3_public_url now (inr messenger) d =
    let m = message s3_public_url ad group in answered o ad group account now m (messenger m) d

module _ (factory : Account → List ℕ ⊎ Messenger) (s3_public_url : List ℕ) where
  -- The guards, in their order, once the three rows are read.
  abbrev pub send_found :
      Order → ℕ → Option Ad → Option Group → Option Account → Desk → Ending × Desk
  send_found o now (some ad) (some group) (some account) d =
      if is_draft (effective_ad_status ad)
      then (
        returned,
        write (log_row o (some ad) (some group) (some account) fail (some (ad_is_draft o.ad_id))) d,
      )
      else if not (is_connected account.status)
      then (
        returned,
        write
            (log_row o (some ad) (some group) (some account) account_disconnected
              (some (account_is account.id account.status)))
            d,
      )
      else with_messenger o ad group account s3_public_url now (factory account) d
  send_found o now ad group account d =
      (returned, write (log_row o ad group account fail (some missing)) d)

  unfoldable pub send_message_once : Order → ℕ → Desk → Ending × Desk
  send_message_once o now d =
      send_found o now (ad_of o.ad_id d.tables) (group_of o.group_id d.tables)
        (account_of (some o.account_id) d.tables) d
