-- ===== src/Pages.antt =====
-- The pages with a format of their own: src/page and include/page.
pub mod Bitmap
pub mod IndexRoots
pub mod TableFields
pub mod TablePage
