-- ===== src/Threads/Handoff/Progress.antt =====
-- phpthread.go: a party at work always comes to its end.
