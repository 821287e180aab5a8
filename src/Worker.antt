-- ===== src/Worker.antt =====
-- Package internal/worker: the job that counts down, its output buffer and its subscribers.
pub mod Tick
pub mod Job
pub mod Countdown
pub mod Buffer
pub mod Channels
pub mod Subscriber
pub mod Stream
pub mod Examples
