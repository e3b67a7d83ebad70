-- ===== src/Windows/Keys/Examples.antt =====
-- A thread on which no key was used, and the first key.
