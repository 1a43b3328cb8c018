-- ===== src/Tests.antt =====
-- The theorems at work on small inputs, a file for each part of the program.
pub mod Counting
mod Closing
pub mod Hash
pub mod Message
mod Packing
pub mod Processes
mod Lines
mod Locking
mod Queues
mod Sending
pub mod Serving
mod Sharing
mod Returning
pub mod Stream
mod Transport
mod Waiting
