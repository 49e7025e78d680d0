-- ===== src/Wire.antt =====
-- service/src: the generated transport code. Protocol is the library that it calls, a parameter;
-- Reading is the loop that all structs are read by; Sequence is proxy_types.cpp; Args, Results and
-- Responses are the structs of thrift.cpp and thrift_response.cpp; Calls is the client and the
-- processor of thrift.cpp.
pub mod Protocol
pub mod Reading
pub mod Parsing
pub mod Structs
pub mod Sequence
pub mod Args
pub mod Client
pub mod Processor
pub mod Remote
pub mod Ends
pub mod Required
pub mod Fields
pub mod Response
