-- ===== src/Worker/Results/Marks.antt =====
-- What results leave on their groups (app/worker/tasks.py, `_process_results_async`).
use broadcaster.Prelude.{
  ℕ, ◌≡◌, ◌∙◌, refl, ap, Bool, true, false, not, ◌&&◌, Option, none, some, List, [], ◌∷◌, ◌==◌,
  if◌then◌else◌, arith, Bool-cases, if_cases, inl, inr, find-modify,
}
use broadcaster.Scheduling.Collect.{Group, Base, AccountType, group_of}
use broadcaster.Worker.Retry.{LogStatus, is_success}
use broadcaster.Worker.Results.{
  Result, Parsed, object, not_object, Session, set_mark, is_group, mark_group, marked, with_group,
  write_row,
}

-- The error and the moment that a result leaves on its group; `none` where it leaves both alone.
abbrev pub Word : Type 0
Word = Option (List ℕ) × Option ℕ

abbrev pub word_by : ℕ → Option ℕ → Option LogStatus → Result → Option Word
word_by now (some user_id) (some status) r =
    if r.no_retry
    then some (r.error_message, some now)
    else if is_success status
    then some (none, none)
    else none
word_by now _ _ r = none

abbrev pub names : ℕ → Option ℕ → Bool
names i none = false
names i (some k) = not (k == 0) && (k == i)

abbrev pub word_on : ℕ → ℕ → Parsed → Option Word
word_on now i not_object = none
word_on now i (object r) = if names i r.group_id then word_by now r.user_id r.status r else none

abbrev pub later_word : Option Word → Option Word → Option Word
later_word earlier none = earlier
later_word earlier (some w) = some w

-- The last word of a batch on a group.
unfoldable pub last_word : ℕ → ℕ → List Parsed → Option Word
last_word now i [] = none
last_word now i (p ∷ ps) = later_word (word_on now i p) (last_word now i ps)

abbrev pub settle : Option Word → Group → Group
settle none g = g
settle (some (error, at)) g = set_mark error at g

-- No word, however it is asked for.
silent : (t : Bool) (g : Group) → g ≡ settle (if t then none else none) g
silent true g = refl
silent false g = refl

pub settle-later_word :
    (earlier later : Option Word) (g : Group)
    → settle later (settle earlier g) ≡ settle (later_word earlier later) g
settle-later_word earlier none g = refl
settle-later_word none (some w) g = refl
settle-later_word (some v) (some w) g = refl

pub settle-id : (w : Option Word) (g : Group) → (settle w g).id ≡ g.id
settle-id none g = refl
settle-id (some w) g = refl

module _ (messenger : AccountType) (now : ℕ) where
  pub ads-with_group :
      (status : LogStatus) (r : Result) (o : Option ℕ) (b : Base)
      → (with_group now status r o b).ads ≡ b.ads
  ads-with_group status r none b = refl
  ads-with_group status r (some i) b =
      if_cases (λ (x : Base). x.ads ≡ b.ads) (i == 0) (λ _. refl)
        λ _.
          if_cases (λ (x : Base). x.ads ≡ b.ads) r.no_retry (λ _. refl)
            λ _. if_cases (λ (x : Base). x.ads ≡ b.ads) (is_success status) (λ _. refl) (λ _. refl)

  abbrev Keeps : ℕ → Group → Base → Option Word → Type 0
  Keeps i g b w = group_of i b ≡ some (settle w g)

  -- One mark, seen from any group.
  mark_group-Keeps :
      (i k : ℕ) (error : Option (List ℕ)) (at : Option ℕ) (b : Base) (g : Group)
      → (g.id == i) ≡ true
      → group_of i b ≡ some g
      → group_of i (mark_group k (set_mark error at) b)
        ≡ some (settle (if k == i then some (error, at) else none) g)
  mark_group-Keeps i k error at b g own found =
      find-modify (is_group i) (is_group k) (set_mark error at) b.groups g (λ x. refl) found
      ∙ ap some (same_test (k == i) (ground arith))
    where
      same_test :
          (t : Bool)
          → (g.id == k) ≡ t
          → (if g.id == k then set_mark error at g else g)
            ≡ settle (if t then some (error, at) else none) g
      same_test true e = rw e refl
      same_test false e = rw e refl

  module _ (i : ℕ) (status : LogStatus) (r : Result) (b : Base) (g : Group)
      (own : (g.id == i) ≡ true) (found : group_of i b ≡ some g) where
    marked_by :
        (k : ℕ) (lasting success : Bool)
        → r.no_retry ≡ lasting
        → is_success status ≡ success
        → group_of i (marked now status r k b)
          ≡ some (
              settle
                (if k == i
                  then (if r.no_retry
                      then some (r.error_message, some now)
                      else if is_success status
                      then some (none, none)
                      else none)
                  else none)
                g)
    marked_by k true success e h =
        rw e (mark_group-Keeps i k r.error_message (some now) b g own found)
    marked_by k false true e h = rw (e, h) (mark_group-Keeps i k none none b g own found)
    marked_by k false false e h = rw (e, h) (found ∙ ap some (silent (k == i) g))

    with_group_lem :
        (o : Option ℕ)
        → group_of i (with_group now status r o b)
          ≡ some (
              settle
                (if names i o
                  then (if r.no_retry
                      then some (r.error_message, some now)
                      else if is_success status
                      then some (none, none)
                      else none)
                  else none)
                g)
    with_group_lem none = found
    with_group_lem (some k) = elim (Bool-cases (k == 0)) [
      | inl no_key ↦ rw no_key found
      | inr key ↦ rw key (marked_by k r.no_retry (is_success status) refl refl)
    ]

  -- One result of the batch.
  pub row_word :
      (i : ℕ) (u : Option ℕ) (status : Option LogStatus) (r : Result) (s : Session) (g : Group)
      → (g.id == i) ≡ true
      → group_of i s.tables ≡ some g
      → group_of i (write_row messenger now u status r s).tables
        ≡ some (settle (if names i r.group_id then word_by now u status r else none) g)
  row_word i (some u) (some status) r s g own found =
      with_group_lem i status r s.tables g own found r.group_id
  row_word i (some u) none r s g own found = found ∙ ap some (silent (names i r.group_id) g)
  row_word i none status r s g own found = found ∙ ap some (silent (names i r.group_id) g)
