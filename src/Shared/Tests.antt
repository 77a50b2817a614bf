-- ===== src/Shared/Tests.antt =====
-- The alert test and the event types at concrete inputs.
