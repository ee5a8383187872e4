-- ===== src/Practice.antt =====
-- backend/app/services/practice.py: `PracticeService`, over the default scheduler of
-- `get_scheduler`. One method is one action on the session. The moment `datetime.now(UTC)` is an
-- argument `now`: one request sees one moment.
pub mod Lookups
pub mod Evaluate
pub mod Submit
pub mod Outcome
pub mod Writes
pub mod Batch
pub mod Feed
pub mod Listing
pub mod Stats
pub mod Times
pub mod Scores
pub mod Replay
pub mod Failures
pub mod Lost
pub mod Offers
pub mod Locks
mod Samples
