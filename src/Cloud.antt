-- ===== src/Cloud.antt =====
-- The AWS account under commands/provisionAws.ts, teardownAws.ts and deployEc2.ts.
pub mod Sdk
pub mod Action
pub mod Logic
pub mod Provision
pub mod Account
pub mod Quiet
pub mod Tracks
pub mod Lookups
pub mod Teardown
pub mod Emptied
pub mod Deploy
pub mod Tally
pub mod Launches
