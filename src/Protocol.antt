-- ===== src/Protocol.antt =====
-- benchcli-go/protocol/http.go: the HTTP/1.1 that the benchmark client speaks. `Encode` and
-- `Batch` are what it writes, `Response` and `Chunked` what it reads.
pub mod Errors
pub mod Grow
pub mod Ascii
pub mod Framing
pub mod Chunked
pub mod Response
pub mod Encode
pub mod Batch
