-- ===== src/Lib.antt =====
-- Verification library of the trading platform.
--
-- The program (src/cpp) records the market data of a broker, keeps it in moving windows of time,
-- stores it in a database, reads it back from logs and sends orders. This library models the following
-- parts of it.
--
-- - Window: moving windows of time. Window/Policy is common/moving_window_interval_policy.hpp,
--   Window/Samplers is common/moving_window_samplers.hpp; Window/Moving is `moving_window` of
--   common/moving_window.hpp with its events and reads, Window/Moving/Copy its copies into arrays,
--   Window/Derived the series that are derived from it and its post-process, and Window/Ohlc is
--   common/ohlc.hpp, and Window/Pipeline is platform/sequential_pipeline.hpp. Window/Buffer is the
--   interface of boost::circular_buffer.
-- - Historian: Historian/Messages is proto/common.hpp and proto/historian.hpp, Historian/Keys and
--   Historian/Store are historian/internal.hpp, and Historian/Db is historian/Db.cpp.
--   Historian/Reactor is the server and the client of queries of historian/DbReactorStrategy.cpp
--   and historian/DbReactorClient.cpp. leveldb and the generated message classes are the interfaces
--   of Historian/LevelDb.
-- - Messaging: `handlers_map` of platform/message_processor.hpp and the loop of the listener of
--   platform/message_processor.cpp, over a list of what the socket receives.
-- - Awaiting: common/async_response.hpp, and the map of pending requests that the next two share.
-- - Orders: service/OrderManager.cpp, whose handlers the listener calls.
-- - ContractManager: service/ContractManager.cpp, whose handlers the listener calls; its contracts
--   are found by the keys of Contracts.
-- - Tickers: Tickers/Code is ib/ticker_id.cpp and Tickers/Registry and Tickers/Converted are
--   ib/TickerMap.cpp.
-- - Contracts: the keys of contracts of platform/contract_symbol.cpp.
-- - Driver: ib/AsioEClientDriver.cpp. Driver/Threads has the interleavings of its two threads, by
--   reads and writes of single members and calls of the socket; what the socket and the protocol
--   handler do is an argument.
-- - Broker: the gateway to the broker. Broker/Messages has the messages of proto/ib.proto,
--   Broker/ContractMarshall and Broker/OrderMarshall are ib/api966/marshall_contract.cpp and
--   ib/api966/marshall_order.cpp, Broker/Requests is `callApi` of ib/api966/ApiMessages.hpp, and
--   Broker/Connector the loop of inbound messages of ib/SocketConnectorBase.hpp with
--   ib/api966/ZmqMessage.cpp, ZmqProtoBuffer.hpp and the receive of zmq/ZmqUtils.hpp, for the programs
--   of main/cm.hpp, main/fh.hpp and main/em.hpp in Broker/Programs. Broker/Dispatch publishes ticks and
--   depth as ib/MarketEventDispatcher.hpp and ib/MarketEventDispatcher.cpp do, and Broker/Answers
--   contract details, errors and order statuses as ib/ContractEventDispatcher.hpp,
--   ib/OrderEventDispatcher.hpp and the wrappers of ib/api966 do. A request is registered with Tickers;
--   what is published is read by Handling, ContractManager and Orders. The broker's API is the list of
--   its calls; its classes are records of the fields that the code uses, whose ids are 64-bit.
-- - Sessions: the flags and the initiator of ib/SessionSetting.cpp and ib/SocketInitiator.cpp, with the
--   attempts of ib/SocketConnectorBase.hpp to connect in Sessions/Connect and its sockets for
--   publishing in Sessions/Outbound. Whether a connector starts, connects or stops is an argument.
-- - Handling: the callbacks for market data and control messages of
--   platform/marketdata_handler.hpp, platform/marketdata_handler_proto_impl.hpp and
--   platform/generic_handler.hpp.
-- - Subscriber: the loop of service/MarketDataSubscriber.hpp, a frame at a time, and the
--   administration of service/ManagedAgent.hpp.
-- - LogReader: service/LogReader.cpp and service/LogReaderInternal.hpp, with what they use of
--   common/time_utils.cpp and ib/contract_symbol.hpp. LogReader/Lines parses a line,
--   LogReader/Records makes messages (those of Historian/Messages) of it, LogReader/Actions keeps
--   what ticker ids stand for, LogReader/Scan is `Process`, and LogReader/Publish is
--   service/LogReaderVisitor.hpp. The casts of boost and the local time are arguments, and the file
--   is the list of its words, of which each is shorter than 2 ^ 31; its times are those of boost,
--   before the year 10000.
--
-- All paths above are below src/cpp. Child modules hold the lemmas of their parent, Common what the
-- parts share, and Tests concrete instances of the interfaces and runs.
--
-- Numbers: uint64_t and size_t are natural numbers with the wrap-around of 64 bits written out
-- where the code can meet it; int is read from the low 32 bits. A double that is only stored or
-- printed is its 64 bits; the arithmetic and the order of sampled values are interfaces. Text is a
-- list of bytes. Fuel: `digits` has 20, enough for a number of 64 bits, and `handle_inbound` of
-- Broker/Connector is proved to need one more than there are frames. A
-- null pointer that is followed, or an access out of an array, is a result of its own. What a lock
-- guards is one step.
--
-- Not modelled: sockets, threads and their start, logging, boost::date_time, the HTTP servers and
-- clients, the vendor's classes for the broker and the logging around their calls (ib/api966/ApiImpl.cpp),
-- the version for an earlier interface (ib/api964), the bindings to R, the main programs, and the
-- arithmetic of doubles. The visitors that print what the log reader reads, codes of options, and
-- the window callbacks are not modelled either.
pub mod Common
pub mod Window
pub mod Historian
pub mod Messaging
pub mod Awaiting
pub mod Broker
pub mod Orders
pub mod Tickers
pub mod Contracts
pub mod ContractManager
pub mod Sessions
pub mod Driver
pub mod LogReader
pub mod Handling
pub mod Subscriber
mod Tests
