-- ===== src/Sema.antt =====
-- src/Sema.h, src/Sema.cpp: the counting semaphore, a model for each platform.
pub mod Apple
pub mod Counter
pub mod Deadline
pub mod Unix
pub mod Win32
mod Tests
