-- ===== src/Scheduling/Send/Marks.antt =====
-- What the messenger's answer leaves on the group.
use broadcaster.Prelude.{
  ℕ, ◌≡◌, refl, ap, true, false, none, some, List, arith, Bool-cases, inl, inr, ◌⊎◌, find-modify,
  ◌==◌,
}
use broadcaster.Scheduling.Collect.{
  Ad, Account, Group, Base, is_draft, effective_ad_status, is_connected, ad_of, account_of,
  group_of,
}
use broadcaster.Scheduling.Send.{
  Answer, Messenger, Desk, Order, Ending, returned, send_failed, message, conclude, with_messenger,
  send_found, send_message_once, has_text, set_group,
}

-- The row of the group is the only one under its identifier that a query finds.
set_group-found :
    (i : ℕ) (f : Group → Group) (g : Group) (d : Desk)
    → ((x : Group) → (f x).id ≡ x.id)
    → group_of i d.tables ≡ some g
    → group_of i (set_group g.id f d).tables ≡ some (f g)
set_group-found i f g d keeps found = ground (
  arith,
  find-modify (λ (x : Group). x.id == i) (λ (x : Group). x.id == g.id) f d.tables.groups g
      (λ x. ap (λ (k : ℕ). k == i) (keeps x)) found,
)

-- The group after the answer `a`, and how the call ends.
pub record Concludes (a : Answer) (g : Group) (i now : ℕ) (b : Base) (end : Ending × Desk)
    : Type 0 where
  pub success :
      a.is_ok ≡ true
      → (end.0 ≡ returned)
        × ((h : Group) × (group_of i end.1.tables ≡ some h) × (has_text h.last_error ≡ false))
  pub lasting :
      a.is_ok ≡ false
      → a.no_retry ≡ true
      → (end.0 ≡ returned)
        × (group_of i end.1.tables ≡ some (record g { last_error = a.error; error_at = some now }))
  pub passing :
      a.is_ok ≡ false → a.no_retry ≡ false → (end.0 ≡ send_failed a.error) × (end.1.tables ≡ b)

conclude-Concludes :
    (a : Answer) (g : Group) (i now : ℕ) (d : Desk)
    → group_of i d.tables ≡ some g
    → Concludes a g i now d.tables (conclude a g now d)
conclude-Concludes a g i now d found = record {
  success = λ good.
      rw (conclude, good)
        (elim (Bool-cases (has_text g.last_error)) [
          | inl marked ↦ rw marked (
            refl,
            (
              record g { last_error = none; error_at = none },
              set_group-found i (λ x. record x { last_error = none; error_at = none }) g d
                  (λ x. refl) found,
              refl,
            ),
          )
          | inr clean ↦ rw clean (refl, (g, found, clean))
        ]);
  lasting = λ bad stays.
      rw (conclude, bad, stays)
        (
          refl,
          set_group-found i (λ x. record x { last_error = a.error; error_at = some now }) g d
              (λ x. refl) found,
        );
  passing = λ bad passes. rw (conclude, bad, passes) (refl, refl);
}

module _ (factory : Account → List ℕ ⊎ Messenger) (url : List ℕ) (o : Order) (now : ℕ)
    (d : Desk) where
  -- A send that reaches the messenger: a success takes an old error off the group, a lasting error
  -- is written on it with its moment and raises nothing, and any other error is raised, so that the
  -- send is tried again, and leaves the tables as they were.
  pub send_message_once-Concludes :
      (ad : Ad) (group : Group) (account : Account) (messenger : Messenger)
      → ad_of o.ad_id d.tables ≡ some ad
      → group_of o.group_id d.tables ≡ some group
      → account_of (some o.account_id) d.tables ≡ some account
      → is_draft (effective_ad_status ad) ≡ false
      → is_connected account.status ≡ true
      → factory account ≡ inr messenger
      → Concludes
          (messenger (message url ad group))
          group
          o.group_id
          now
          d.tables
          (send_message_once factory url o now d)
  unfolding send_message_once
  send_message_once-Concludes ad group account messenger has_ad has_group has_account published
        connected made =
      rw (has_ad, has_group, has_account, send_found, published, connected, made, with_messenger)
        (conclude-Concludes (messenger (message url ad group)) group o.group_id now _ has_group)
