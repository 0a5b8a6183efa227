-- ===== src/Tickers.antt =====
-- Ticker ids: their code (ib/ticker_id.cpp) and the registry of contracts (ib/TickerMap.cpp).
pub mod Code
pub mod Registry
pub mod Converted
