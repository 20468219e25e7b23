-- ===== src/Query.antt =====
-- The read API: src/api/repositories/HashtagMediaQueryRepository.ts and the pagination of
-- src/api/controllers/HashtagController.ts.
pub mod Listing
pub mod Order
pub mod Paging
