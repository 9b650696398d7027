-- ===== src/Images/Form.antt =====
-- A form with the keys of uploads (app/services/image_keys.py, `own_image_keys`).
use broadcaster.Prelude.{
  ℕ, ◌≤◌, ◌≡◌, refl, Bool, true, false, ◌&&◌, Option, List, [], ◌∷◌, map, length, All, ltb, ◌==◌,
  if◌then◌else◌, Bool-cases, inl, inr,
}
use broadcaster.Accounts.Resync.{Text}
use broadcaster.Images.Keys.{
  is_hex, is_safe, all_of, is_own, OwnKeys, own_keys, too_many, inaccessible, judge,
  partition_own_image_keys, own_image_keys,
}
use broadcaster.Images.Upload.{upload_key}
use broadcaster.Images.Owner.{is_own-upload_key}

unfoldable pub all_own : ℕ → List Text → Bool
all_own user_id [] = true
all_own user_id (value ∷ values) = is_own user_id value && all_own user_id values

abbrev pub accepted_if : Bool → List Text → OwnKeys
accepted_if b values = if b then own_keys values else inaccessible

judge-cons :
    (value : Text) (own offending : List Text) (b : Bool) (values : List Text)
    → judge (own, offending) ≡ accepted_if b values
    → judge (value ∷ own, offending) ≡ accepted_if b (value ∷ values)
judge-cons value own [] true values e = cc e
judge-cons value own [] false values e = cc e
judge-cons value own (x ∷ offending) true values e = cc e
judge-cons value own (x ∷ offending) false values e = refl

-- Nothing is left out, and the order is kept: all keys come back, or a refusal.
judge-partition :
    (user_id : ℕ) (values : List Text)
    → judge (partition_own_image_keys values user_id) ≡ accepted_if (all_own user_id values) values
unfolding partition_own_image_keys all_own
judge-partition user_id [] = refl
judge-partition user_id (value ∷ values) = elim (Bool-cases (is_own user_id value)) [
  | inl own ↦ rw own (
      judge-cons value (partition_own_image_keys values user_id).0
        (partition_own_image_keys values user_id).1 (all_own user_id values) values
        (judge-partition user_id values))
  | inr other ↦ rw other refl
]

-- An upload: who sent it, the token, the file's name and the extension of the stored format.
pub record Upload : Type 0 where
  pub user_id : ℕ
  pub token : Text
  pub filename : Option Text
  pub extension : Text

pub record IsUpload (u : Upload) : Type 0 where
  pub registered : 1 ≤ u.user_id
  pub hex : all_of is_hex u.token ≡ true
  pub long : length u.token ≡ 32
  pub safe : all_of is_safe u.extension ≡ true
  pub short : length u.extension ≤ 94

abbrev pub key_of : Upload → Text
key_of u = upload_key u.user_id u.token u.filename u.extension

unfoldable pub all_by : ℕ → List Upload → Bool
all_by user_id [] = true
all_by user_id (u ∷ us) = (u.user_id == user_id) && all_by user_id us

all_own-key_of :
    (user_id : ℕ) (us : List Upload)
    → All IsUpload us
    → all_own user_id (map key_of us) ≡ all_by user_id us
unfolding all_own all_by
all_own-key_of user_id [] sound = refl
all_own-key_of user_id (u ∷ us) (first, others) =
    rw
      (
        is_own-upload_key u.user_id u.token u.filename u.extension first.registered first.hex
            first.long first.safe first.short user_id,
        all_own-key_of user_id us others,
      )
      refl

-- A form with the keys of uploads, whatever names the files came with: more than the limit are
-- refused; the keys come back, all of them and in their order, if the user sent every upload, and
-- one upload of another user makes the form be refused.
pub own_image_keys-upload_key :
    (user_id max_images : ℕ) (us : List Upload)
    → All IsUpload us
    → own_image_keys (map key_of us) user_id max_images ≡ (
        if ltb max_images (length (map key_of us))
        then too_many
        else if all_by user_id us
        then own_keys (map key_of us)
        else inaccessible)
unfolding own_image_keys
own_image_keys-upload_key user_id max_images us sound =
    rw (judge-partition user_id (map key_of us), all_own-key_of user_id us sound) refl
