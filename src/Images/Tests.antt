-- ===== src/Images/Tests.antt =====
-- A form of user 7 with two uploads, one of a file whose name is a path.
use broadcaster.Prelude.{
  ◌≡◌, refl, none, some, List, [], ◌∷◌, map, length, All, ltb, if◌then◌else◌, arith,
}
use broadcaster.Prelude.Decimal.{codes, str}
use broadcaster.Accounts.Resync.{take, same}
use broadcaster.Images.Keys.{own_keys, too_many, inaccessible, own_image_keys, all_of, drop}
use broadcaster.Images.Upload.{
  upload_key, safe_filename, last_segment, has_separator, retarget_extension, strip_extension,
}
use broadcaster.Images.Form.{Upload, IsUpload, key_of, all_by, own_image_keys-upload_key}

abbrev uploads : List Upload
uploads =
    record {
      user_id = 7;
      token = codes "0123456789abcdef0123456789abcdef";
      filename = some (codes "../8/cat photo.PNG");
      extension = codes ".jpg";
    }
    ∷ record {
      user_id = 7;
      token = codes "ffffffffffffffffffffffffffffffff";
      filename = none;
      extension = codes ".png";
    }
    ∷ []

uploads_sound : All IsUpload uploads
unfolding all_of
uploads_sound = (
  record { registered = omega arith; hex = refl; long = refl; safe = refl; short = omega arith },
  (
    record { registered = omega arith; hex = refl; long = refl; safe = refl; short = omega arith },
    tt,
  ),
)

path_dropped :
    upload_key 7
      (codes "0123456789abcdef0123456789abcdef")
      (some (codes "../8/cat photo.PNG"))
      (codes ".jpg")
    ≡ codes "7/0123456789abcdef0123456789abcdef_cat_photo.jpg"
unfolding upload_key str safe_filename last_segment has_separator retarget_extension strip_extension
    take drop same
path_dropped = refl

own_image_keys-upload_key_example : own_image_keys (map key_of uploads) 7 10 ≡ (
    if ltb 10 (length (map key_of uploads))
    then too_many
    else if all_by 7 uploads
    then own_keys (map key_of uploads)
    else inaccessible)
own_image_keys-upload_key_example = own_image_keys-upload_key 7 10 uploads uploads_sound
