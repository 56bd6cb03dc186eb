-- ===== src/Router.antt =====
-- The router of the sessions of logging processes (score/datarouter/datarouter/data_router.cpp) and
-- the parser of what they log (score/datarouter/src/logparser/logparser.cpp).
pub mod Parser
pub mod Registration
pub mod Session
pub mod Ticks
pub mod Outputs
pub mod Requests
pub mod Quota
pub mod Closing
mod Tests
