-- ===== src/Joker.antt =====
-- AAA/joker.h and AAA/joker.cpp: the three-card game (zha jin hua).
pub mod Examples
pub mod Cards
pub mod Table
pub mod Deal
pub mod Progress
pub mod Compare
pub mod Ranking
