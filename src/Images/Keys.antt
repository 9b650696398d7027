-- ===== src/Images/Keys.antt =====
-- Whose key is it (app/services/image_keys.py): the pattern of a key, the partition of a form's keys,
-- and the keys of thumbnails.
use broadcaster.Prelude.{
  ℕ, zero, suc, Bool, true, false, not, ◌&&◌, ◌||◌, Option, none, some, List, [], ◌∷◌, ◌++◌, length,
  leb, ltb, ◌==◌, if◌then◌else◌,
}
use broadcaster.Prelude.Decimal.{codes, str}
use broadcaster.Accounts.Resync.{Text, same, take}

abbrev pub is_digit : ℕ → Bool
is_digit c = leb b'0' c && leb c b'9'

-- `[0-9a-f]`
abbrev pub is_hex : ℕ → Bool
is_hex c = is_digit c || (leb b'a' c && leb c b'f')

-- `[A-Za-z0-9._-]`
abbrev pub is_safe : ℕ → Bool
is_safe c =
    (leb b'A' c && leb c b'Z')
    || ((leb b'a' c && leb c b'z') || (is_digit c || ((c == b'.') || ((c == b'_') || (c == b'-')))))

unfoldable pub all_of : (ℕ → Bool) → Text → Bool
all_of p [] = true
all_of p (c ∷ cs) = p c && all_of p cs

-- `text[n:]`
unfoldable pub drop : ℕ → Text → Text
drop zero t = t
drop (suc n) [] = []
drop (suc n) (c ∷ cs) = drop n cs

-- The digits at the start of a text, and what follows them.
unfoldable pub span : Text → Text × Text
span [] = ([], [])
span (c ∷ cs) = let (ds, rest) = span cs in if is_digit c then (c ∷ ds, rest) else ([], c ∷ cs)

-- `_[A-Za-z0-9._-]{1,100}` to the end
abbrev pub is_name : Text → Bool
is_name [] = false
is_name (c ∷ name) =
    (c == b'_') && (all_of is_safe name && (leb 1 (length name) && leb (length name) 100))

-- `/[0-9a-f]{32}` and the name
abbrev pub is_tail : Text → Bool
is_tail [] = false
is_tail (c ∷ t) =
    (c == b'/')
    && (all_of is_hex (take 32 t) && ((length (take 32 t) == 32) && is_name (drop 32 t)))

-- `[1-9][0-9]*`
abbrev pub is_number : Text → Bool
is_number [] = false
is_number (c ∷ cs) = not (c == b'0')

-- `_IMAGE_KEY_PATTERN.fullmatch(value)`, as its first group.
unfoldable pub full_match : Text → Option Text
full_match value =
    let (ds, rest) = span value in if is_number ds && is_tail rest then some ds else none

abbrev pub is_group_of : ℕ → Option Text → Bool
is_group_of user_id none = false
is_group_of user_id (some group) = same group (str user_id)

-- Whether the key is one of the user.
unfoldable pub is_own : ℕ → Text → Bool
is_own user_id value = is_group_of user_id (full_match value)

unfoldable pub partition_own_image_keys : List Text → ℕ → List Text × List Text
partition_own_image_keys [] user_id = ([], [])
partition_own_image_keys (value ∷ values) user_id =
    let (own, offending) = partition_own_image_keys values user_id in
    if is_own user_id value then (value ∷ own, offending) else (own, value ∷ offending)

-- The two refusals, both of code 400.
pub data OwnKeys : Type 0 where
  own_keys : List Text → OwnKeys
  too_many inaccessible : OwnKeys

abbrev pub judge : List Text × List Text → OwnKeys
judge (own, []) = own_keys own
judge (own, value ∷ values) = inaccessible

unfoldable pub own_image_keys : List Text → ℕ → ℕ → OwnKeys
own_image_keys values user_id max_images =
    if ltb max_images (length values)
    then too_many
    else judge (partition_own_image_keys values user_id)

abbrev pub thumb_key_prefix : Text
thumb_key_prefix = codes "thumbs/"

unfoldable pub starts_with : Text → Text → Bool
starts_with [] t = true
starts_with (c ∷ cs) [] = false
starts_with (c ∷ cs) (d ∷ ds) = (c == d) && starts_with cs ds

unfoldable pub thumb_key : Text → Text
thumb_key [] = []
thumb_key (c ∷ cs) =
    if starts_with thumb_key_prefix (c ∷ cs) then c ∷ cs else thumb_key_prefix ++ c ∷ cs
