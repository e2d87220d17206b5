-- ===== src/Controller.antt =====
-- internal/sipcontroller/controller.go: what the controller does with its call sessions.
pub mod Data
pub mod State
pub mod Oda
pub mod Messages
pub mod Protocol
pub mod Events
pub mod Handlers
pub mod Keep
pub mod Once
pub mod Parts
pub mod Leaves
pub mod Starts
pub mod Moves
pub mod Reports
pub mod History
pub mod Life
pub mod Gate
pub mod Registry
pub mod Serve
pub mod Service
pub mod Reach
pub mod Overlap
mod Tests
