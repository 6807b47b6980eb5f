-- ===== src/BenchRate.antt =====
-- benchcli-go/benchrate/benchrate.go: pipelined batches sent at a rate, and their responses.
pub mod Sender
pub mod Responses
pub mod Start
pub mod Run
