-- ===== src/Errors.antt =====
-- binance_th/exceptions.py and errors.py: the exception hierarchy as data, and how an HTTP status
-- and an envelope code become an exception.
pub mod Exceptions
pub mod Mapping
pub mod Laws
mod Tests
