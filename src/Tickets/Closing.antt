-- ===== src/Tickets/Closing.antt =====
-- When a ticket is closed for silence.
