-- ===== src/Wire/Args.antt =====
-- service/src/thrift.cpp and thrift_response_service.cpp: the structs of the messages.
pub mod Ids
pub mod Async
pub mod AsyncBatches
pub mod Sync
pub mod Batches
pub mod Results
pub mod Acks
pub mod Responses
