-- ===== src/Tests.antt =====
-- The theorems at concrete inputs, and runs of the definitions.
pub mod Ring
pub mod Disk
pub mod Coding
mod WindowRuns
mod HistorianRuns
mod OrderRuns
mod TickerRuns
mod ContractRuns
mod DriverRuns
mod ContractManagerRuns
mod LogReaderRuns
mod ReactorRuns
mod SubscriberRuns
mod SessionRuns
pub mod BrokerRuns
mod BrokerEvents
