-- ===== src/Serve/Races.antt =====
-- A page that joins between the two halves of `AppendFrame` (src/app/serve_runner.cpp).
