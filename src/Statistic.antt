-- ===== src/Statistic.antt =====
-- statistic.c and the tables that it reads: running means, guesses from the time to live, rounding
-- to the sending period, and the kind of link.
pub mod Expectation
pub mod Mean
pub mod Ttl
pub mod Round
pub mod Link
