-- ===== src/Client.antt =====
-- What a client does with the streams of objects: client/object_get.go, client/object_search.go and
-- client/object_put.go.
pub mod Stream
pub mod Payload
pub mod Search
pub mod Put
mod Tests
