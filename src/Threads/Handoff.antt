-- ===== src/Threads/Handoff.antt =====
-- phpthread.go and phpmainthread.go: how a PHP thread is handed to another handler, stopped and
-- rebooted, as a protocol of four parties over the state of the thread.
pub mod Steps
pub mod Safety
pub mod Progress
