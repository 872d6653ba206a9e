-- ===== src/Relay.antt =====
-- video.cpp: what the video child passes between a publisher and its ffmpeg.
pub mod Rtp
pub mod Queue
pub mod Guard
