-- ===== src/Worker/Sync/Settled.antt =====
-- The synchronisation ends, and leaves no account syncing (app/worker/tasks.py,
-- `_sync_groups_async`).
use broadcaster.Prelude.{
  ℕ, zero, suc, ◌+◌, ◌*◌, ◌≤◌, ◌≡◌, ◌⊎◌, refl, true, false, ◌&&◌, List, [], ◌∷◌, modify, All, arith,
  if_cases, inl, inr,
}
use broadcaster.Worker.Sync.{
  SyncAccount, Progress, Surroundings, SyncEnd, complete, skipped, failed_sync, timed_out, rejected,
  crashed, Poll, ready, settled, working, poll_raised, is_account, is_syncing, if_syncing, session,
  note_failure, take_groups, meanwhile, poll_loop, handle, sync_groups, poll_interval, max_polls,
  groups_or_none, bridge_failure_message, answered, unexpected_failure_message,
}

-- The account does not stand as syncing.
abbrev pub IsSettled : ℕ → List SyncAccount → Type 0
IsSettled account_id rows =
    All (λ (a : SyncAccount). is_account account_id a && is_syncing a.status ≡ false) rows

-- A function that ends a synchronisation.
abbrev Ends : (SyncAccount → SyncAccount) → Type 0
Ends f = (a : SyncAccount) → is_syncing (f a).status ≡ false

module _ (account_id : ℕ) where
  modify-IsSettled :
      (f : SyncAccount → SyncAccount) (rows : List SyncAccount)
      → Ends f
      → IsSettled account_id (modify (is_account account_id) (if_syncing f) rows)
  unfolding modify
  modify-IsSettled f [] ends = tt
  modify-IsSettled f (a ∷ rows) ends = (
    if_cases (λ (x : SyncAccount). is_account account_id x && is_syncing x.status ≡ false)
        (is_account account_id a)
        (λ mine.
          if_cases (λ (x : SyncAccount). is_account account_id x && is_syncing x.status ≡ false)
            (is_syncing a.status) (λ busy. ground (arith, ends a)) (λ idle. ground arith))
        (λ other. rw other refl),
    modify-IsSettled f rows ends,
  )

  module _ (w : Surroundings) where
    -- The end of the loop: settled, or an exception for the handler; and its polls and sleeps.
    record Fine (polls slept : ℕ) (r : SyncEnd × Progress) : Type 0 where
      few_polls : r.1.polls ≤ polls
      short : r.1.slept ≤ slept
      settled_or_crashed : (r.0 ≡ crashed) ⊎ IsSettled account_id r.1.accounts

    session-Fine :
        (e : SyncEnd) (f : SyncAccount → SyncAccount) (s : Progress) (polls slept : ℕ)
        → Ends f
        → s.polls ≤ polls
        → s.slept ≤ slept
        → Fine polls slept (session account_id w e f s)
    session-Fine e f s polls slept ends p q =
        if_cases (Fine polls slept) w.commit_ok
          (λ _. record {
            few_polls = p;
            short = q;
            settled_or_crashed = inr (modify-IsSettled f s.accounts ends);
          })
          (λ _. record { few_polls = p; short = q; settled_or_crashed = inl refl })

    answered-Fine :
        (answer : Poll) (s : Progress) (rest : SyncEnd × Progress) (polls slept : ℕ)
        → s.polls ≤ polls
        → s.slept ≤ slept
        → Fine polls slept rest
        → Fine polls slept (answered account_id w answer s rest)
    answered-Fine (ready groups) s rest polls slept p q fine =
        session-Fine _ (take_groups (groups_or_none groups) w.now) s polls slept (λ a. refl) p q
    answered-Fine (settled state) s rest polls slept p q fine =
        session-Fine failed_sync (note_failure (bridge_failure_message state)) s polls slept
          (λ a. refl) p q
    answered-Fine working s rest polls slept p q fine = fine
    answered-Fine poll_raised s rest polls slept p q fine = record {
      few_polls = p;
      short = q;
      settled_or_crashed = inl refl;
    }

    done :
        {polls slept : ℕ} {r : SyncEnd × Progress}
        → Fine polls slept r
        → (r.0 ≡ crashed → ⊥)
        → IsSettled account_id r.1.accounts
    done fine calm = elim fine.settled_or_crashed [ inl e ↦ absurd (calm e) | inr held ↦ held ]

    poll_loop-Fine :
        (left attempt : ℕ) (s : Progress) (polls slept : ℕ)
        → s.polls + left ≤ polls
        → s.slept + left * poll_interval ≤ slept
        → Fine polls slept (poll_loop account_id w left attempt s)
    unfolding poll_loop
    poll_loop-Fine zero attempt s polls slept p q =
        session-Fine timed_out (note_failure _) (meanwhile account_id w attempt s) polls slept
          (λ a. refl) (omega arith) (omega arith)
    poll_loop-Fine (suc left) attempt s polls slept p q =
        answered-Fine (w.poll attempt) _ _ polls slept (omega arith) (omega arith)
          (poll_loop-Fine left (attempt + 1) _ polls slept (omega arith) (omega arith))

    handle-Fine :
        (r : SyncEnd × Progress)
        → w.handler_ok ≡ true
        → Fine max_polls (max_polls * poll_interval) r
        → ((handle account_id w r).1.polls ≤ max_polls)
          × ((handle account_id w r).1.slept ≤ max_polls * poll_interval)
          × IsSettled account_id (handle account_id w r).1.accounts
    handle-Fine (crashed, s) ok fine = rw ok (
      fine.few_polls,
      fine.short,
      modify-IsSettled (note_failure unexpected_failure_message) _ (λ a. refl),
    )
    handle-Fine (complete, s) ok fine = (fine.few_polls, fine.short, done fine (λ e. cc e))
    handle-Fine (skipped, s) ok fine = (fine.few_polls, fine.short, done fine (λ e. cc e))
    handle-Fine (failed_sync, s) ok fine = (fine.few_polls, fine.short, done fine (λ e. cc e))
    handle-Fine (timed_out, s) ok fine = (fine.few_polls, fine.short, done fine (λ e. cc e))
    handle-Fine (rejected x, s) ok fine = (fine.few_polls, fine.short, done fine (λ e. cc e))

    -- The task ends after forty polls and six hundred seconds of sleep at most, and when it ends
    -- the account does not stand as syncing, whatever the worker answered at each attempt, whatever
    -- others wrote meanwhile, whether the messenger could be built and whether the session of the
    -- outcome could commit. The handler's own session must be able to.
    pub sync_groups-IsSettled :
        (accounts : List SyncAccount)
        → w.handler_ok ≡ true
        → ((sync_groups account_id w accounts).1.polls ≤ max_polls)
          × ((sync_groups account_id w accounts).1.slept ≤ max_polls * poll_interval)
          × IsSettled account_id (sync_groups account_id w accounts).1.accounts
    unfolding sync_groups
    sync_groups-IsSettled accounts ok = handle-Fine _ ok (
        if_cases (Fine max_polls (max_polls * poll_interval)) w.factory_ok
          (λ _. poll_loop-Fine max_polls 0 _ max_polls _ (omega arith) (omega arith))
          (λ _. record {
            few_polls = omega arith;
            short = omega arith;
            settled_or_crashed = inl refl;
          }))
