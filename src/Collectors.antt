-- ===== src/Collectors.antt =====
-- internal/collectors: the event that every collector emits, and its identifier.
pub mod Event
pub mod Uuid
