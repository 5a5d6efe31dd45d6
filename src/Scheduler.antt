-- ===== src/Scheduler.antt =====
-- How a request for resources is placed on machines: the pure part of tryRequest and what it calls
-- in controllers/testresourcerequest_controller.go.
pub mod Overflow
pub mod Bind
pub mod Select
pub mod TryRequest
