-- ===== src/Images/Upload.antt =====
-- The key that an upload is stored under (app/services/image_upload.py). The token is `uuid4().hex`,
-- and the extension is that of the format in which the image was stored; both come from outside.
use broadcaster.Prelude.{
  ℕ, ◌+◌, ◌-◌, Bool, false, ◌||◌, ◌&&◌, Option, none, some, List, [], ◌∷◌, ◌++◌, length, map, leb,
  ◌==◌, if◌then◌else◌,
}
use broadcaster.Prelude.Decimal.{codes, str}
use broadcaster.Accounts.Resync.{Text, same, take}
use broadcaster.Images.Keys.{is_safe, drop}

abbrev pub max_filename_length : ℕ
max_filename_length = 100

abbrev pub fallback_filename : Text
fallback_filename = codes "upload"

-- `[\\/]`
abbrev pub is_separator : ℕ → Bool
is_separator c = (c == 92) || (c == b'/')

unfoldable pub has_separator : Text → Bool
has_separator [] = false
has_separator (c ∷ cs) = is_separator c || has_separator cs

-- `_PATH_SEPARATORS.split(filename)[-1]`
unfoldable pub last_segment : Text → Text
last_segment [] = []
last_segment (c ∷ cs) =
    let rest = last_segment cs in
    if has_separator cs then rest else if is_separator c then cs else c ∷ cs

abbrev pub or_fallback : Text → Text
or_fallback [] = fallback_filename
or_fallback (c ∷ cs) = c ∷ cs

abbrev pub clean : ℕ → ℕ
clean c = if is_safe c then c else b'_'

abbrev pub safe_text : Text → Text
safe_text [] = fallback_filename
safe_text (c ∷ cs) = or_fallback (take max_filename_length (map clean (last_segment (c ∷ cs))))

unfoldable pub safe_filename : Option Text → Text
safe_filename none = fallback_filename
safe_filename (some filename) = safe_text filename

-- `filename.lower()`, on the letters that a safe name has.
abbrev pub lower : ℕ → ℕ
lower c = if leb b'A' c && leb c b'Z' then c + 32 else c

-- `t.endswith(suffix)`
abbrev pub ends_with : Text → Text → Bool
ends_with suffix t =
    leb (length suffix) (length t) && same (drop (length t - length suffix) t) suffix

abbrev pub known_image_extensions : List Text
known_image_extensions = codes ".jpeg" ∷ codes ".jpg" ∷ codes ".png" ∷ []

-- The loop over the known extensions, up to the first that ends the name.
unfoldable pub strip_extension : List Text → Text → Text
strip_extension [] filename = filename
strip_extension (known ∷ others) filename =
    let rest = strip_extension others filename in
    if ends_with known (map lower filename)
    then take (length filename - length known) filename
    else rest

unfoldable pub retarget_extension : Text → Text → Text
retarget_extension filename extension =
    or_fallback (
      take (max_filename_length - length extension)
        (strip_extension known_image_extensions filename))
    ++ extension

-- `f"{user_id}/{uuid4().hex}_{filename}"`
unfoldable pub upload_key : ℕ → Text → Option Text → Text → Text
upload_key user_id token filename extension =
    str user_id ++ (b'/' ∷ token ++ (b'_' ∷ retarget_extension (safe_filename filename) extension))
