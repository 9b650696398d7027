-- ===== src/Worker/Containers.antt =====
-- The watch over the queues (app/worker/tasks.py, `manage_wa_containers` and `manage_max_containers`):
-- an account with waiting payloads gets a container, and one without leaves the set of active
-- accounts. Docker's answers come from outside. A key's time to live is left out.
pub mod Covered
pub mod Served
use broadcaster.Prelude.{
  ℕ, Bool, true, false, not, Option, none, some, List, [], ◌∷◌, select, ◌==◌, if◌then◌else◌,
}
use broadcaster.Scheduling.Collect.{DispatchTask}
use broadcaster.Worker.Dispatch.{Payload, Channel, sort_tasks, unsorted, push_buckets}

-- The keys of one messenger, with `{wa,max}:endpoint:{account_id}`.
pub record Keys : Type 0 where
  pub channel : Channel
  pub endpoint : ℕ → Option (List ℕ)

-- What the start of a container comes to: its endpoint or none, or an exception of Docker.
pub data Started : Type 0 where
  running : List ℕ → Started
  no_endpoint start_raised : Started

abbrev pub srem : ℕ → Channel → Channel
srem a c = record c { active_accounts = select (λ x. not (x == a)) c.active_accounts }

abbrev pub set_endpoint : ℕ → Option (List ℕ) → Keys → Keys
set_endpoint a e k = record k { endpoint = λ x. if x == a then e else k.endpoint x }

abbrev pub retire : ℕ → Keys → Keys
retire a k = set_endpoint a none (record k { channel = srem a k.channel })

-- `is_max`: the watch of MAX forgets the endpoint of a container that is not ready.
module _ (is_max : Bool) (start : ℕ → Started) where
  -- The account goes on, or the exception ends the loop.
  abbrev pub ensure : ℕ → Started → Keys → Bool × Keys
  ensure a (running e) k = (true, set_endpoint a (some e) k)
  ensure a no_endpoint k = (true, if is_max then set_endpoint a none k else k)
  ensure a start_raised k = (false, k)

  -- One account, by what waits in its queue.
  abbrev pub manage_by : ℕ → List Payload → Keys → Bool × Keys
  manage_by a [] k = (true, retire a k)
  manage_by a (p ∷ waiting) k = ensure a (start a) k

  -- The loop over the accounts.
  unfoldable pub manage_all : List ℕ → Keys → Keys
  manage_all [] k = k
  manage_all (a ∷ accounts) k =
      let next = manage_by a (k.channel.queue a) k in
      let rest = manage_all accounts next.1 in if next.0 then rest else next.1

  -- `smembers` is read once, before the loop.
  unfoldable pub manage_containers : Keys → Keys
  manage_containers k = manage_all k.channel.active_accounts k

-- A worker takes the first payload of its queue.
abbrev pub rest_of : List Payload → List Payload
rest_of [] = []
rest_of (p ∷ waiting) = waiting

unfoldable pub lpop : ℕ → Keys → Keys
lpop a k = record k {
  channel = record k.channel {
    queue = λ x. if x == a then rest_of (k.channel.queue x) else k.channel.queue x;
  };
}

-- What happens to the keys of WhatsApp, in any order: a dispatch whose payloads are numbered from
-- `n`, a worker that takes a payload, and a run of the watch.
pub data Step : Type 0 where
  sent : ℕ → List DispatchTask → Step
  popped : ℕ → Step
  watched : Step

module _ (stamp : ℕ → ℕ × ℕ) (start : ℕ → Started) where
  abbrev pub happen : Step → Keys → Keys
  happen (sent n tasks) k = record k {
    channel = push_buckets stamp n (sort_tasks tasks unsorted).wa_tasks_by_account k.channel;
  }
  happen (popped a) k = lpop a k
  happen watched k = manage_containers false start k

  unfoldable pub run : List Step → Keys → Keys
  run [] k = k
  run (s ∷ ss) k = run ss (happen s k)
