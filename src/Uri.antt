-- ===== src/Uri.antt =====
-- src/URI.cc: an address of scheme, authority, path, query and fragment.
pub mod Chars
pub mod Authority
pub mod Path
pub mod Query
pub mod Fragment
pub mod Whole
mod Tests
