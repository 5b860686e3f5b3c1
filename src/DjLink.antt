-- ===== src/DjLink.antt =====
-- djlink_parser.cpp and djlink_master_tracker.cpp: the beats that DJ players announce.
pub mod Parse
pub mod Master
mod Tests
