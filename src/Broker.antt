-- ===== src/Broker.antt =====
-- The gateway to the broker (ib/api966 and the dispatchers of ib/). A vendor's structure is a record
-- of the fields that the code reads or writes.
pub mod Messages
pub mod ContractMarshall
pub mod OrderMarshall
pub mod Key
pub mod Requests
pub mod Calls
pub mod Connector
pub mod Served
pub mod Consumed
pub mod Programs
pub mod TickTypes
pub mod Dispatch
pub mod Subscribed
pub mod Ticks
pub mod Unresolved
pub mod Answers
pub mod Details
pub mod Statuses
pub mod OrderRead
pub mod ContractRead
