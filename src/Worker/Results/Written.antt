-- ===== src/Worker/Results/Written.antt =====
-- What a batch of results writes (app/worker/tasks.py, `_process_results_async`): its rows in their
-- order, and the last word on each group.
use broadcaster.Prelude.{ℕ, Bool, true, false, ◌&&◌, Option, none, some, List, [], ◌∷◌, ◌++◌}
use broadcaster.Scheduling.Collect.{Ad, AccountType}
use broadcaster.Worker.Retry.{LogStatus}
use broadcaster.Worker.Results.{
  Result, Parsed, object, not_object, ResultLog, Session, row_of, write_row,
}

-- The rows that the results of a batch become, one for each that has a user and a status.
abbrev row_if : AccountType → List Ad → Option ℕ → Option LogStatus → Result → List ResultLog
row_if messenger ads (some user_id) (some status) r = row_of messenger ads user_id status r ∷ []
row_if messenger ads _ _ r = []

unfoldable pub rows_of : AccountType → List Ad → List Parsed → List ResultLog
rows_of messenger ads [] = []
rows_of messenger ads (not_object ∷ ps) = rows_of messenger ads ps
rows_of messenger ads (object r ∷ ps) =
    row_if messenger ads r.user_id r.status r ++ rows_of messenger ads ps

unfoldable pub are_objects : List Parsed → Bool
are_objects [] = true
are_objects (not_object ∷ ps) = false
are_objects (object r ∷ ps) = are_objects ps

-- Whether a popped batch is written: it could be decoded, it holds mappings alone, and the commit
-- succeeds.
abbrev pub is_written : Bool → Option (List Parsed) → Bool
is_written commit_ok none = false
is_written commit_ok (some ps) = are_objects ps && commit_ok

abbrev pub batch_of : Option (List Parsed) → List Parsed
batch_of none = []
batch_of (some ps) = ps

module _ (messenger : AccountType) (now : ℕ) where
  -- The session after a batch of mappings.
  all_written : List Parsed → Session → Session
  all_written [] s = s
  all_written (not_object ∷ ps) s = all_written ps s
  all_written (object r ∷ ps) s = all_written ps (write_row messenger now r.user_id r.status r s)
