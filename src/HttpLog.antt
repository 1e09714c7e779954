-- ===== src/HttpLog.antt =====
-- internal/httplog: the recorder around the writer of every response, and the address of the client.
pub mod Address
pub mod Recorder
pub mod Tests
