-- ===== src/History/Tests.antt =====
-- Runs of the history's repeat: one record that failed, pressed twice.
use broadcaster.Prelude.{
  ℕ, ◌+◌, ◌≡◌, ◌↔◌, refl, true, Option, none, some, List, [], ◌∷◌, find, select, count, Among, inl,
  arith,
}
use broadcaster.Prelude.Int.{pos}
use broadcaster.Billing.Access.{check_access_cached}
use broadcaster.Billing.Tests.{today}
use broadcaster.Scheduling.Collect.{group_of}
use broadcaster.Scheduling.Tests.{tables, nine, group}
use broadcaster.Worker.Retry.{get_if_key}
use broadcaster.Worker.Tests.{failed_log, open_shop}
use broadcaster.History.Slot.{claim_retry_slot, put}
use broadcaster.History.Handler.{
  Request, Desk, taken, id_in_column, can_repeat, my_group, history_retry,
}
use broadcaster.History.Handler.Once.{Visit, serve, handed_for, history_retry-once}
use broadcaster.History.Availability.{Row, Reason, retry_availability}
use broadcaster.History.Availability.Offer.{HasKeys, retry_availability-can_repeat}

abbrev press : ℕ → Request
press clock = record {
  user = some 7;
  same_origin = true;
  log_id = pos 5;
  clock = clock;
  now = today;
  read_up = true;
  write_up = true;
  delivery = taken;
}

abbrev desk : Desk
desk = record { holds = []; handed = []; store = open_shop }

first_press :
    handed_for 5 (history_retry (press 1000) (failed_log ∷ []) (tables nine) desk).1
    ≡ handed_for 5 desk + 1
unfolding history_retry claim_retry_slot put can_repeat id_in_column check_access_cached find select
    count
first_press = refl

abbrev second_press : List Visit
second_press = record { request = press 1500; logs = failed_log ∷ []; tables = tables nine } ∷ []

history_retry-once_example :
    handed_for 5
      (serve second_press (history_retry (press 1000) (failed_log ∷ []) (tables nine) desk).1)
    ≡ handed_for 5 (history_retry (press 1000) (failed_log ∷ []) (tables nine) desk).1
history_retry-once_example =
    history_retry-once 5 (press 1000) (failed_log ∷ []) (tables nine) desk second_press first_press
      (omega arith)

one_row : HasKeys (tables nine)
unfolding count
one_row = record { ads = λ i. ground arith; accounts = λ i. ground arith }

abbrev page : List Row
page = record { log = failed_log; group = some (group 1 true) } ∷ []

its_group :
    some (group 1 true)
    ≡ my_group 7 (get_if_key (λ i. group_of i (tables nine)) failed_log.group_id)
unfolding find
its_group = refl

retry_availability-can_repeat_example :
    (r : Option Reason) × Among (5, r) (retry_availability 7 page (tables nine))
    × ((r ≡ none) ↔ (can_repeat 7 failed_log (tables nine) ≡ true))
retry_availability-can_repeat_example =
    retry_availability-can_repeat 7 (tables nine) page
      (record { log = failed_log; group = some (group 1 true) }) one_row (inl refl) refl its_group
