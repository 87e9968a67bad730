-- ===== src/Examples.antt =====
-- The theorems at concrete inputs, and runs of the definitions.
mod Planning
mod Storage
mod Running
mod Segmented
mod Validated
mod Defaulted
mod Created
mod Accepted
mod Scheduling
mod Archived
mod Stored
mod Linked
mod Contracted
mod Published
mod Referenced
mod Keyed
