-- ===== src/Scheduling/Send/Laws.antt =====
-- Every send leaves one row of the log, and only an admitted one reaches the messenger.
use broadcaster.Prelude.{
  ℕ, ◌≡◌, refl, Bool, true, false, Option, none, some, List, [], ◌∷◌, ◌++◌, arith, Bool-cases, inl,
  inr, ◌⊎◌, if◌then◌else◌,
}
use broadcaster.Scheduling.Collect.{
  Ad, Account, Group, is_draft, effective_ad_status, is_connected, ad_of, account_of, group_of,
}
use broadcaster.Scheduling.Send.{
  SendStatus, sent, fail, SendLog, Answer, Messenger, Desk, Order, Ending, returned, message,
  conclude, with_messenger, send_found, send_message_once, write,
}

abbrev is_sent : SendStatus → Bool
is_sent sent = true
is_sent _ = false

-- What one call adds to the log and to the calls of messengers.
pub record Leaves (factory : Account → List ℕ ⊎ Messenger) (url : List ℕ) (o : Order) (d : Desk)
    (end : Ending × Desk) : Type 0 where
  pub row : SendLog
  pub logged : end.1.logs ≡ d.logs ++ row ∷ []
  pub of_order :
      (row.ad_id ≡ o.ad_id)
      × (row.group_id ≡ o.group_id)
      × (row.schedule_id ≡ o.schedule_id)
      × (row.task_id ≡ o.task_id)
  pub reached :
      ((end.1.calls ≡ d.calls) × (is_sent row.status ≡ false) × (end.0 ≡ returned))
      ⊎ ((ad : Ad) × (group : Group) × (account : Account) × (messenger : Messenger) × (ad_of
              o.ad_id d.tables
            ≡ some ad)
          × (group_of o.group_id d.tables ≡ some group)
          × (account_of (some o.account_id) d.tables ≡ some account)
          × (is_draft (effective_ad_status ad) ≡ false)
          × (is_connected account.status ≡ true)
          × (factory account ≡ inr messenger)
          × (end.1.calls ≡ d.calls ++ message url ad group ∷ [])
          × (is_sent row.status ≡ (messenger (message url ad group)).is_ok))

conclude-logs : (a : Answer) (g : Group) (now : ℕ) (d : Desk) → (conclude a g now d).1.logs ≡ d.logs
conclude-logs a g now d = ground arith

conclude-calls :
    (a : Answer) (g : Group) (now : ℕ) (d : Desk) → (conclude a g now d).1.calls ≡ d.calls
conclude-calls a g now d = ground arith

module _ (factory : Account → List ℕ ⊎ Messenger) (url : List ℕ) (o : Order) (now : ℕ)
    (d : Desk) where
  -- A call that stops before the messenger.
  stopped :
      (row : SendLog)
      → (row.ad_id ≡ o.ad_id)
        × (row.group_id ≡ o.group_id)
        × (row.schedule_id ≡ o.schedule_id)
        × (row.task_id ≡ o.task_id)
      → is_sent row.status ≡ false
      → Leaves factory url o d (returned, write row d)
  stopped row of_order unsent = record {
    row = row;
    logged = refl;
    of_order = of_order;
    reached = inl (refl, unsent, refl);
  }

  module _ (ad : Ad) (group : Group) (account : Account) (has_ad : ad_of o.ad_id d.tables ≡ some ad)
      (has_group : group_of o.group_id d.tables ≡ some group)
      (has_account : account_of (some o.account_id) d.tables ≡ some account)
      (published : is_draft (effective_ad_status ad) ≡ false)
      (connected : is_connected account.status ≡ true) where
    status_of : (b : Bool) → is_sent (if b then sent else fail) ≡ b
    status_of true = refl
    status_of false = refl

    with_messenger-Leaves :
        (r : List ℕ ⊎ Messenger)
        → factory account ≡ r
        → Leaves factory url o d (with_messenger o ad group account url now r d)
    with_messenger-Leaves (inl e) made = stopped _ (refl, refl, refl, refl) refl
    with_messenger-Leaves (inr messenger) made = record {
      row = _;
      logged = conclude-logs (messenger (message url ad group)) group now _;
      of_order = (refl, refl, refl, refl);
      reached = inr (
        ad,
        group,
        account,
        messenger,
        has_ad,
        has_group,
        has_account,
        published,
        connected,
        made,
        conclude-calls (messenger (message url ad group)) group now _,
        status_of (messenger (message url ad group)).is_ok,
      );
    }

  send_found-Leaves :
      (x : Option Ad) (y : Option Group) (z : Option Account)
      → ad_of o.ad_id d.tables ≡ x
      → group_of o.group_id d.tables ≡ y
      → account_of (some o.account_id) d.tables ≡ z
      → Leaves factory url o d (send_found factory url o now x y z d)
  send_found-Leaves none y z hx hy hz = stopped _ (refl, refl, refl, refl) refl
  send_found-Leaves (some ad) none z hx hy hz = stopped _ (refl, refl, refl, refl) refl
  send_found-Leaves (some ad) (some group) none hx hy hz = stopped _ (refl, refl, refl, refl) refl
  send_found-Leaves (some ad) (some group) (some account) hx hy hz =
      elim (Bool-cases (is_draft (effective_ad_status ad))) [
        | inl unpublished ↦ rw (send_found, unpublished) (stopped _ (refl, refl, refl, refl) refl)
        | inr published ↦ elim (Bool-cases (is_connected account.status)) [
          | inr lost ↦ rw (send_found, published, lost) (stopped _ (refl, refl, refl, refl) refl)
          | inl connected ↦
              rw (send_found, published, connected)
                (with_messenger-Leaves ad group account hx hy hz published connected
                  (factory account) refl)
        ]
      ]

  -- Every send adds exactly one row to the log, under the identifiers that it was ordered with. The
  -- messenger is called at most once, and only for a published ad over a connected account; the row
  -- says `ok` exactly if the messenger did, and without a call nothing is raised.
  pub send_message_once-Leaves : Leaves factory url o d (send_message_once factory url o now d)
  unfolding send_message_once
  send_message_once-Leaves = send_found-Leaves _ _ _ refl refl refl
