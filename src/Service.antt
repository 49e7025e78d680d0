-- ===== src/Service.antt =====
-- service/src: the handler of a connection, thrift_handler.cpp, and the clients that wait for answers,
-- thrift_response_client_map.cpp. The proxy is an interface here, proxy/src/proxy.h.
pub mod Clients
pub mod Handler
pub mod Delivered
pub mod Ids
pub mod Served
pub mod Responded
