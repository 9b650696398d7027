-- ===== src/Worker/Containers/Served.antt =====
-- What a run of the watch does for the accounts with waiting payloads (app/worker/tasks.py,
-- `manage_wa_containers`).
use broadcaster.Prelude.{ℕ, ◌≡◌, Bool, true, false, Option, some, List, if◌then◌else◌}
use broadcaster.Worker.Dispatch.{is_member}
use broadcaster.Worker.Containers.{Keys, Started, running, no_endpoint, start_raised}

abbrev pub is_raised : Started → Bool
is_raised (running e) = false
is_raised no_endpoint = false
is_raised start_raised = true

-- The endpoint that a start leaves; a container that is not ready leaves the old one.
abbrev pub given : Started → Option (List ℕ) → Option (List ℕ)
given (running e) old = some e
given no_endpoint old = old
given start_raised old = old

module _ (start : ℕ → Started) (a : ℕ) where
  -- The account as the watch leaves it, where it has waiting payloads.
  pub record IsLeft (endpoint : Option (List ℕ)) (k after : Keys) : Type 0 where
    pub endpoint_left : after.endpoint a ≡ endpoint
    pub queue_left : after.channel.queue a ≡ k.channel.queue a
    pub member_left :
        is_member a after.channel.active_accounts ≡ is_member a k.channel.active_accounts

  visited : Bool → Option (List ℕ) → Option (List ℕ)
  visited b old = if b then given (start a) old else old
