-- ===== src/Lstl.antt =====
-- LSTL: the containers.
pub mod Vector
pub mod Linked
