-- ===== src/Events/Tests.antt =====
-- The theorems on the listeners of src/asc/events.py.
