-- ===== src/Queue.antt =====
-- The operations on the queue of internal/app/app.go.
pub mod Order
pub mod OrderLaws
pub mod Groups
pub mod Edit
pub mod Bag
pub mod Serving
pub mod Refinement
pub mod MoveLaws
