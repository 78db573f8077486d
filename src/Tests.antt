-- ===== src/Tests.antt =====
-- The theorems at concrete inputs.
mod Keyspace
mod Boxes
mod Requests
mod Dispatching
mod Passes
mod Specs
mod Archives
mod Codecs
