-- ===== src/Reasons/Table.antt =====
-- The entries of the reason table are independent, and taking one back leaves no trace.
