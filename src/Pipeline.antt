-- ===== src/Pipeline.antt =====
-- The request pipeline (middleware.go, pipeline.go): middleware composed into the chains of the six
-- steps, the registries with their registration window and cache, and the whole chain of a request.
pub mod Chain
pub mod Registry
pub mod Execute
pub mod Checks
pub mod Order
pub mod Cache
pub mod Reach
pub mod RequestOrder
pub mod Agree
pub mod Sound
pub mod Touched
pub mod Requests
