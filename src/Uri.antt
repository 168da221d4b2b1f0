-- ===== src/Uri.antt =====
-- source/uri: the urls of trackers.
pub mod Url
pub mod Magnet
mod Runs
