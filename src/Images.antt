-- ===== src/Images.antt =====
-- The keys of attachments (app/services/image_keys.py and app/services/image_upload.py). A text is the
-- list of its code points.
pub mod Keys
pub mod Upload
pub mod Names
pub mod Owner
pub mod Form
mod Tests
