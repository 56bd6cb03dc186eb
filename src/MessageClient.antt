-- ===== src/MessageClient.antt =====
-- The client of the router in a logging process
-- (score/mw/log/detail/data_router/data_router_message_client_impl.cpp) and the name of the file that it
-- shares with the router.
pub mod FileNames
pub mod Client
pub mod Tasks
mod Steps
pub mod Unlinking
mod Tests
