-- ===== src/Window.antt =====
-- The moving windows of src/cpp/common: time slots, samplers, the window and its derived series,
-- the open/high/low/close bars that are built of four windows, and pipelines of indicators.
pub mod Policy
pub mod Buffer
pub mod Samplers
pub mod Moving
pub mod Derived
pub mod Pipeline
pub mod Ohlc
