-- ===== src/History/Availability/Offer.antt =====
-- The button and the handler agree (app/pages/history.py, `retry_availability` and `history_retry`).
use broadcaster.Prelude.{
  ℕ, ◌≤◌, ◌≡◌, ◌↔◌, ◌∙◌, refl, sym, ap, Bool, true, false, not, ◌&&◌, inl, inr, Option, none, some,
  List, [], ◌∷◌, find, count, select, ◌==◌, if◌then◌else◌, arith, Bool-cases, if_cases,
  find-count_zero, find-test, Among, Among-map, Among-select,
}
use broadcaster.Scheduling.Collect.{
  Ad, Account, Group, Base, is_connected, ad_of, account_of, group_of,
}
use broadcaster.Worker.Dispatch.{is_member}
use broadcaster.Worker.Retry.{is_success, get_if_key}
use broadcaster.History.Handler.{
  draft_ad, my_ad, my_group, my_account, account_if_key, is_whole, can_repeat,
}
use broadcaster.History.Availability.{
  Row, Reason, ad_draft, group_gone, group_off, account_gone, account_off, failed_row, with_key,
  ad_ids, account_key, account_ids, live_ads, live_accounts, reason_of, found_ad, found_account,
  verdict_of, retry_availability,
}

module _ {ℓ} {A : Type ℓ} (p q : A → Bool) where
  abbrev keep : Option A → Option A
  keep none = none
  keep (some a) = if q a then some a else none

  find-select-none : (xs : List A) → find p xs ≡ none → find p (select q xs) ≡ none
  unfolding find select
  find-select-none [] e = refl
  find-select-none (x ∷ xs) e = ground (arith, find-select-none xs)

  -- Where one row at most passes a test, searching among the kept rows is searching, then keeping.
  find-select-keep : (xs : List A) → count p xs ≤ 1 → find p (select q xs) ≡ keep (find p xs)
  unfolding find select count
  find-select-keep [] u = refl
  find-select-keep (x ∷ xs) u =
      ground (arith, find-select-keep xs, find-select-none xs, find-count_zero p xs)

-- Keys.
with_key-is_member :
    (k : ℕ) (o : Option ℕ) (keys : List ℕ)
    → is_member k keys ≡ true
    → is_member k (with_key o keys) ≡ true
unfolding is_member
with_key-is_member k none keys h = h
with_key-is_member k (some i) keys h =
    if_cases (λ (ks : List ℕ). is_member k ks ≡ true) (i == 0) (λ _. h) (λ _. ground arith)

with_key_self :
    (k : ℕ) (keys : List ℕ) → (k == 0) ≡ false → is_member k (with_key (some k) keys) ≡ true
unfolding is_member
with_key_self k keys h = rw h (ground arith)

is_member-ad_ids :
    (rows : List Row) (row : Row) (k : ℕ)
    → Among row rows
    → row.log.ad_id ≡ some k
    → (k == 0) ≡ false
    → is_member k (ad_ids rows) ≡ true
unfolding ad_ids
is_member-ad_ids [] row k at e h = absurd at
is_member-ad_ids (x ∷ rows) row k (inl same) e h =
    rw (sym (ap (λ (r : Row). r.log.ad_id) same) ∙ e) (with_key_self k (ad_ids rows) h)
is_member-ad_ids (x ∷ rows) row k (inr at) e h =
    with_key-is_member k x.log.ad_id (ad_ids rows) (is_member-ad_ids rows row k at e h)

is_member-account_ids :
    (rows : List Row) (row : Row) (k : ℕ)
    → Among row rows
    → account_key row.group ≡ some k
    → (k == 0) ≡ false
    → is_member k (account_ids rows) ≡ true
unfolding account_ids
is_member-account_ids [] row k at e h = absurd at
is_member-account_ids (x ∷ rows) row k (inl same) e h =
    rw (sym (ap (λ (r : Row). account_key r.group) same) ∙ e) (with_key_self k (account_ids rows) h)
is_member-account_ids (x ∷ rows) row k (inr at) e h =
    with_key-is_member k (account_key x.group) (account_ids rows)
      (is_member-account_ids rows row k at e h)

eq_of_key : (a b : ℕ) → (a == b) ≡ true → a ≡ b
eq_of_key a b h = ground arith

-- One row at most has a key.
pub record HasKeys (b : Base) : Type 0 where
  pub ads : (i : ℕ) → count (λ (x : Ad). x.id == i) b.ads ≤ 1
  pub accounts : (i : ℕ) → count (λ (x : Account). x.id == i) b.accounts ≤ 1

module _ (user : ℕ) (b : Base) (keyed : HasKeys b) where
  -- Among the ads that the page's query brought, a key finds what the handler finds by it.
  found_ad_key :
      (keys : List ℕ) (k : ℕ)
      → is_member k keys ≡ true
      → found_ad (live_ads user keys b) k ≡ my_ad user (ad_of k b)
  found_ad_key keys k at =
      find-select-keep (λ (x : Ad). x.id == k)
        (λ (x : Ad). is_member x.id keys && (x.user_id == user)) b.ads (keyed.ads k)
      ∙ mine (ad_of k b) (λ ad e. find-test (λ (x : Ad). x.id == k) b.ads e)
    where
      mine :
          (o : Option Ad)
          → ((ad : Ad) → o ≡ some ad → (ad.id == k) ≡ true)
          → keep (λ (x : Ad). x.id == k) (λ (x : Ad). is_member x.id keys && (x.user_id == user)) o
            ≡ my_ad user o
      mine none h = refl
      mine (some ad) h = let key = eq_of_key ad.id k (h ad refl) in rw (key, at) refl

  found_account_key :
      (keys : List ℕ) (k : ℕ)
      → is_member k keys ≡ true
      → found_account (live_accounts user keys b) k ≡ my_account user (account_of (some k) b)
  found_account_key keys k at =
      find-select-keep (λ (x : Account). x.id == k)
        (λ (x : Account). is_member x.id keys && (x.user_id == user)) b.accounts (keyed.accounts k)
      ∙ mine (account_of (some k) b) (λ a e. find-test (λ (x : Account). x.id == k) b.accounts e)
    where
      mine :
          (o : Option Account)
          → ((a : Account) → o ≡ some a → (a.id == k) ≡ true)
          → keep
              (λ (x : Account). x.id == k)
              (λ (x : Account). is_member x.id keys && (x.user_id == user))
              o
            ≡ my_account user o
      mine none h = refl
      mine (some a) h = let key = eq_of_key a.id k (h a refl) in rw (key, at) refl

  module _ (rows : List Row) (row : Row) (at : Among row rows) where
    ad_lookup :
        (o : Option ℕ)
        → row.log.ad_id ≡ o
        → get_if_key (found_ad (live_ads user (ad_ids rows) b)) o
          ≡ my_ad user (get_if_key (λ i. ad_of i b) o)
    ad_lookup none e = refl
    ad_lookup (some k) e = elim (Bool-cases (k == 0)) [
      | inl zero_key ↦ rw zero_key refl
      | inr key ↦ rw key (found_ad_key (ad_ids rows) k (is_member-ad_ids rows row k at e key))
    ]

    account_lookup :
        (o : Option ℕ)
        → account_key row.group ≡ o
        → get_if_key (found_account (live_accounts user (account_ids rows) b)) o
          ≡ my_account user (get_if_key (λ i. account_of (some i) b) o)
    account_lookup none e = refl
    account_lookup (some k) e = elim (Bool-cases (k == 0)) [
      | inl zero_key ↦ rw zero_key refl
      | inr key ↦
          rw key
            (found_account_key (account_ids rows) k (is_member-account_ids rows row k at e key))
    ]

no_reason :
    (draft on connected : Bool)
    → ◌≡◌ {A = Option Reason}
        (if draft
          then some ad_draft
          else if not on
          then some group_off
          else if connected
          then none
          else some account_off)
        none
      ↔ (not draft && (on && connected) ≡ true)
no_reason true on connected = (λ h. cc h, λ h. cc h)
no_reason false false connected = (λ h. cc h, λ h. cc h)
no_reason false true false = (λ h. cc h, λ h. cc h)
no_reason false true true = (λ h. refl, λ h. refl)

some_reason :
    (b : Bool) (r q : Reason) → ◌≡◌ {A = Option Reason} (if b then some r else some q) none → ⊥
some_reason true r q h = cc h
some_reason false r q h = cc h

no_account :
    (draft on : Bool)
    → ◌≡◌ {A = Option Reason}
        (if draft then some ad_draft else if not on then some group_off else some account_gone)
        none
    → ⊥
no_account true on h = cc h
no_account false true h = cc h
no_account false false h = cc h

-- No reason against a repeat, exactly when the handler's guards on the three rows pass.
reason_of-is_whole :
    (ad : Option Ad) (group : Option Group) (account : Option Account)
    → (reason_of ad group account ≡ none) ↔ (is_whole ad group account ≡ true)
reason_of-is_whole none group account = (λ h. cc h, λ h. cc h)
reason_of-is_whole (some ad) none account =
    (λ h. absurd (some_reason (draft_ad ad) ad_draft group_gone h), λ h. cc h)
reason_of-is_whole (some ad) (some group) none =
    (λ h. absurd (no_account (draft_ad ad) group.is_active h), λ h. cc h)
reason_of-is_whole (some ad) (some group) (some account) =
    no_reason (draft_ad ad) group.is_active (is_connected account.status)

account_if_key-account_key :
    (b : Base) (group : Option Group)
    → account_if_key b group ≡ get_if_key (λ i. account_of (some i) b) (account_key group)
account_if_key-account_key b none = refl
account_if_key-account_key b (some g) = refl

-- The page offers a repeat of a record that did not succeed exactly when the handler's guards on the
-- record's ad, group and account would let it through. The row's group is the user's own that its
-- key names, and one row at most has a key.
pub retry_availability-can_repeat :
    (user : ℕ) (b : Base) (rows : List Row) (row : Row)
    → HasKeys b
    → Among row rows
    → is_success row.log.status ≡ false
    → row.group ≡ my_group user (get_if_key (λ i. group_of i b) row.log.group_id)
    → (r : Option Reason) × Among (row.log.id, r) (retry_availability user rows b)
      × ((r ≡ none) ↔ (can_repeat user row.log b ≡ true))
unfolding retry_availability verdict_of can_repeat
retry_availability-can_repeat user b rows row keyed at failed joined =
    let candidates = select failed_row rows in
    let among = Among-select failed_row rows row (rw failed refl) at in
    (
      verdict_of user candidates b row,
      Among-map (λ (x : Row). (x.log.id, verdict_of user candidates b x)) candidates row among,
      rw
          (
            ad_lookup user b keyed candidates row among row.log.ad_id refl,
            account_lookup user b keyed candidates row among (account_key row.group) refl,
            sym (account_if_key-account_key b row.group),
            sym joined,
          )
          (reason_of-is_whole _ row.group _),
    )
