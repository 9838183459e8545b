-- ===== src/Recommendations.antt =====
-- apps/recommendations: the jobs that compute recommendations, and the services that hand them out.
pub mod Pairs
pub mod Similar
pub mod Candidates
pub mod Upsert
pub mod Job
pub mod Status
pub mod Schedule
