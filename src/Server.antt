-- ===== src/Server.antt =====
-- packages/server/src: the workspace's durable object.
pub mod State
pub mod SqlRows
pub mod Mutate
pub mod Patch
pub mod Maintain
pub mod Invariant
pub mod History
pub mod Sockets
pub mod Pokes
pub mod Handlers
pub mod Hello
pub mod Inbound
