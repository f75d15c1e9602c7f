-- ===== src/Tests.antt =====
-- Runs of the models on small concrete inputs, and the theorems at those inputs.
mod Runs
pub mod Bots
pub mod Uploads
mod Measures
mod Nodes
mod Sandboxes
mod Builds
mod Submissions
mod Messages
mod Fleets
pub mod Boards
mod Ingest
mod Shutdowns
mod Jobs
mod Accounts
mod Endpoints
mod Streams
mod Endings
mod Images
