-- ===== src/Base.antt =====
-- The names that the other modules share: the libraries' and those of the modules below.
pub mod Tests
pub mod Lists
pub mod Text
pub mod Run
pub mod Dict
