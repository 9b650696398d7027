-- ===== src/Worker/Retry/Safe.antt =====
-- What a repeat may send (app/worker/tasks.py, `retry_send`).
use broadcaster.Prelude.{
  ℕ, ◌≡◌, ◌≢◌, ◌∙◌, refl, ap, true, false, not, Option, none, some, List, ◌⊎◌, inl, inr, ◌==◌,
  arith, Bool-cases, if_cases,
}
use broadcaster.Billing.Store.{Store, Verdict, allowed, access_closed}
use broadcaster.Billing.Access.{Action, check_access_cached}
use broadcaster.Scheduling.Collect.{
  Ad, Account, Group, Base, build_dispatch_task, effective_ad_status, is_draft, is_connected, ad_of,
  account_of, group_of,
}
use broadcaster.Worker.Dispatch.{Broker}
use broadcaster.Worker.Dispatch.Routes.{view, route_by}
use broadcaster.Worker.Dispatch.Single.{
  answers, is_known, dispatch-single_up, dispatch-single_unknown, dispatch-single_lost,
}
use broadcaster.Worker.Retry.{
  StoredLog, Triple, Stop, Outside, RetryEnd, retried, log_of, get_if_key, account_of_group, fit,
  owned, retry_task, told, send_again, gated, checked, retry_send,
}

-- The guards that stand before a send: the record is the user's, its ad, its group and the group's
-- account are there, the account is connected, the ad is published, the group is on.
pub record IsFit (user_id log_id : ℕ) (logs : List StoredLog) (b : Base) (t : Triple) : Type 0 where
  pub has_log : log_of log_id logs ≡ some t.log
  pub own : t.log.user_id ≡ user_id
  pub has_ad : get_if_key (λ i. ad_of i b) t.log.ad_id ≡ some t.ad
  pub has_group : get_if_key (λ i. group_of i b) t.log.group_id ≡ some t.group
  pub has_account : account_of (some t.group.account_id) b ≡ some t.account
  pub connected : is_connected t.account.status ≡ true
  pub published : is_draft (effective_ad_status t.ad) ≡ false
  pub group_on : t.group.is_active ≡ true

-- The guards leave a triple only if they all hold.
module _ (user_id log_id : ℕ) (logs : List StoredLog) (b : Base) where
  abbrev Passed : Stop ⊎ Triple → Type 0
  Passed (inl stop) = Unit
  Passed (inr t) = IsFit user_id log_id logs b t

  fit-Passed :
      (log : StoredLog) (ad : Option Ad) (group : Option Group) (account : Option Account)
      → log_of log_id logs ≡ some log
      → log.user_id ≡ user_id
      → get_if_key (λ i. ad_of i b) log.ad_id ≡ ad
      → get_if_key (λ i. group_of i b) log.group_id ≡ group
      → account_of_group b group ≡ account
      → Passed (fit log ad group account)
  fit-Passed log none group account h own ha hg hc = tt
  fit-Passed log (some ad) none account h own ha hg hc = tt
  fit-Passed log (some ad) (some group) none h own ha hg hc = tt
  fit-Passed log (some ad) (some group) (some account) h own ha hg hc =
      if_cases Passed (not (is_connected account.status)) (λ off. tt)
        λ connected.
          if_cases Passed (is_draft (effective_ad_status ad)) (λ draft. tt)
            λ published.
              if_cases Passed (not group.is_active) (λ off. tt)
                λ on. record {
                  has_log = h;
                  own = own;
                  has_ad = ha;
                  has_group = hg;
                  has_account = hc;
                  connected = ground arith;
                  published = published;
                  group_on = ground arith;
                }

  owned-Passed : (l : Option StoredLog) → log_of log_id logs ≡ l → Passed (owned user_id l b)
  owned-Passed none h = tt
  owned-Passed (some log) h =
      if_cases Passed (log.user_id == user_id)
        (λ own.
          fit-Passed log (get_if_key (λ i. ad_of i b) log.ad_id)
            (get_if_key (λ i. group_of i b) log.group_id)
            (account_of_group b (get_if_key (λ i. group_of i b) log.group_id)) h (ground arith) refl
            refl refl)
        (λ other. tt)

module _ (o : Outside) (log_id user_id : ℕ) (logs : List StoredLog) (b : Base) (broker : Broker)
    (s : Store) where
  -- The cached verdict on the user's access.
  abbrev pub verdict : Verdict
  verdict = (check_access_cached o.read_up o.write_up Action.send user_id o.now s).0

  -- The repeat was sent: all guards hold, the access is open, and its one task was routed.
  pub record Sent (r : RetryEnd × Broker × Store) (t : Triple) : Type 0 where
    pub is_fit : IsFit user_id log_id logs b t
    pub access : verdict ≡ allowed
    pub known : is_known t.account.type' ≡ true
    pub said : r.0 ≡ retried
    pub queued : view r.1 ≡ route_by t.account.type' (retry_task o t) (view broker)

  -- Or nothing was queued, and the repeat does not claim that it was sent.
  abbrev pub Unsent : RetryEnd × Broker × Store → Type 0
  Unsent r = (r.0 ≢ retried) × (view r.1 ≡ view broker)

  abbrev pub SentOrUnsent : RetryEnd × Broker × Store → Type 0
  SentOrUnsent r = ((t : Triple) × Sent r t) ⊎ Unsent r

  abbrev finished : RetryEnd × Broker → RetryEnd × Broker × Store
  finished r = (r.0, r.1, (check_access_cached o.read_up o.write_up Action.send user_id o.now s).1)

  routed :
      (t : Triple)
      → IsFit user_id log_id logs b t
      → verdict ≡ allowed
      → SentOrUnsent (finished (send_again o t broker))
  unfolding build_dispatch_task
  routed t is_fit access = elim (Bool-cases (answers t.account.type' o.redis)) [
    | inr down ↦
        let gone = dispatch-single_lost o.stamp (retry_task o t) broker o.redis down in
        inr (λ e. cc (ap (told o) gone.0, e), gone.1)
    | inl up ↦ elim (Bool-cases (is_known t.account.type')) [
      | inr unknown ↦
          let none_sent =
            dispatch-single_unknown o.stamp (retry_task o t) broker o.redis up unknown in
          inr (λ e. cc (ap (told o) none_sent.0, e), none_sent.1)
      | inl known ↦
          let done = dispatch-single_up o.stamp (retry_task o t) broker o.redis up in
          inl (
            t,
            record {
              is_fit = is_fit;
              access = access;
              known = known;
              said = ap (told o) done.0 ∙ rw known refl;
              queued = done.1;
            },
          )
    ]
  ]

  by_verdict :
      (t : Triple) (v : Verdict)
      → IsFit user_id log_id logs b t
      → verdict ≡ v
      → SentOrUnsent (finished (gated o v t broker))
  by_verdict t allowed is_fit e = routed t is_fit e
  by_verdict t access_closed is_fit e = inr (λ h. cc h, refl)

  by_guards :
      (g : Stop ⊎ Triple)
      → Passed user_id log_id logs b g
      → SentOrUnsent (checked o g user_id broker s)
  by_guards (inl stop) passed = inr (λ h. cc h, refl)
  by_guards (inr t) passed = by_verdict t verdict passed refl

  -- Whatever the tables, the queues and Redis hold: either the run says that it repeated the send,
  -- and then the record is the user's, its published ad, its group that is on and the connected
  -- account of that group were found, the user's access was open, and exactly the one task built of
  -- them was routed; or the run says something else, and no queue has changed.
  pub retry_send-SentOrUnsent : SentOrUnsent (retry_send o log_id user_id logs b broker s)
  unfolding retry_send
  retry_send-SentOrUnsent =
      by_guards (owned user_id (log_of log_id logs) b)
        (owned-Passed user_id log_id logs b (log_of log_id logs) refl)
