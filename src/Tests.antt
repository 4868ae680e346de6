-- ===== src/Tests.antt =====
-- Runs of the model on small tables, and the theorems at inputs that meet their hypotheses.
mod Fixture
mod Users
mod Pipeline
mod System
mod Access
mod Worker
mod Answers
mod Caches
mod Jobs
mod Requests
mod Listings
mod Migrations
