-- ===== src/Downstream.antt =====
-- downstream.go: the connection of a client.
pub mod Names
pub mod Caps
pub mod Routing
pub mod Session
pub mod Registered
pub mod Unregistered
pub mod Register
pub mod Handle
pub mod Frame
pub mod Delivery
pub mod Isolation
pub mod Strangers
pub mod Said
pub mod Admission
mod Tests
mod Runs
