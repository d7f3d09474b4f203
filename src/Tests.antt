-- ===== src/Tests.antt =====
-- The theorems at concrete states, on a platform whose tables are lists.
mod Sorting
mod Tables
mod States
mod Friends
mod Groups
mod Gatherings
mod Feeds
mod Accounts
mod Messages
mod Lists
