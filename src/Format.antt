-- ===== src/Format.antt =====
-- src/reply_format.cpp: replies as text for a terminal.
pub mod Quote
pub mod Reply
pub mod RoundTrip
pub mod Total
pub mod Tests
