-- ===== src/Reports.antt =====
-- apps/api/src/reports: reports of users, from the rate limits to the review.
pub mod AntiAbuse
pub mod Review
pub mod Displays
pub mod Views
pub mod Intake
pub mod Create
mod Samples
