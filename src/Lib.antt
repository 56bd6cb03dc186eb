-- ===== src/Lib.antt =====
-- Logging: the lock-free buffers between a logging process and the router of the log, the format of
-- verbose DLT messages, the server of the router that filters and routes messages, the channels that
-- send them, the transfer of files, the recorder of messages in a file, the report on lost messages, the
-- sessions of the router with the server and the worker thread that keep them, and the client of the
-- router in a logging process.
--
-- The parts, and the files that model them:
-- * Queue, of score/mw/log/detail/wait_free_producer_queue. `LinearControlBlock` and its tests are in
--   Queue/ControlBlock, `WaitFreeLinearWriter` in Queue/LinearWriter, `LinearReader` in
--   Queue/LinearReader, and the two blocks with their switch (`WaitFreeAlternatingWriter`,
--   `AlternatingReaderProxy`, `AlternatingReadOnlyReader`) in Queue/Alternating. A buffer is a list of
--   bytes, and the control block's atomic members are 64-bit numbers whose sums are taken modulo
--   2 ^ 64. Queue/Concurrent and Queue/Alternating/Interleaving take the same functions apart: each
--   atomic access is one step of one of any number of threads.
-- * SharedMemory, of score/mw/log/detail/data_router/shared_memory. Records and `ReadLinearBuffer` are
--   in SharedMemory/Records, `SharedMemoryWriter` in SharedMemory/Writer and `SharedMemoryReader` in
--   SharedMemory/Reader. A call of a callback is an entry of the list that a read returns. Other threads
--   may change the blocks during a call of the writer, and count no drops during it.
-- * DltFormat, of score/mw/log/detail/common/dlt_format.cpp and helper_functions.h. `Store` is in
--   DltFormat/Payload, `TypeInfo` and the overloads of `Log` in DltFormat/Arguments.
-- * DltServer, of score/datarouter/src/daemon/dlt_log_server.cpp, diagnostic_job_parser.cpp and
--   diagnostic_job_handler.cpp with their headers, and of score/datarouter/include/dlt/dltid.h. The
--   state and the jobs are in DltServer/Server, `InitLogChannels` in DltServer/Startup and
--   DltServer/Loading, `SaveDatabase` in DltServer/Saving, `FilterAndCall` in DltServer/Routing, the
--   parser and handlers in DltServer/Commands, and the functions that send to the chosen channels in
--   DltServer/Sending, with what they come to in DltServer/Recipients. A hash map is a list of entries
--   with one entry for a key (DltServer/Maps), in the order of its iteration.
-- * Channel, of score/datarouter: include/dlt/dlt_headers.h, include/daemon/dlt_log_channel.h,
--   src/daemon/dlt_log_channel.cpp and src/daemon/udp_stream_output.cpp. The headers are in
--   Channel/Headers, the state of `DltLogChannel` in Channel/State, `SendUdp` and the functions that
--   send in Channel/Output, and `ShowAndClearStats` in Channel/Statistics. Channel/Interleaving has the
--   two steps of `SendFtVerbose`, which takes its counter before it has the mutex, between other
--   operations. Channel/Specification is a channel of batches of messages without buffers and indices.
-- * FileTransfer, of score/datarouter/include/dlt/dlt_protocol.h and of
--   score/datarouter/src/file_transfer/file_transfer_impl/filetransfer_stream.cpp. The packages are in
--   FileTransfer/Packages, as writes to a buffer; FileTransfer/Arguments has the encoding of a list of
--   arguments; the loop over a file is in FileTransfer/Contents.
-- * FileRecorder, of score/mw/log/detail/file_recorder: `DltMessageBuilder` and its helpers are in
--   FileRecorder/MessageBuilder.
-- * StatisticsReporter, of score/mw/log/detail/common/statistics_reporter.cpp. `Update` is one function
--   in StatisticsReporter/Reporter, and a step for each atomic access of any number of threads in
--   StatisticsReporter/Concurrent.
-- * MessagePassing, of score/datarouter/src/daemon/message_passing_server.cpp and its header.
--   `SessionWrapper` is in MessagePassing/Session, the map of sessions with the callbacks in
--   MessagePassing/Server, and `RunWorkerThread` in MessagePassing/Worker, cut where it gives the mutex
--   away. The callbacks, the destructor and the pieces of the worker are events, which come in any order;
--   the map is a function of the process identifier, and the calls of sessions are a list, the last one
--   first.
-- * Router, of score/datarouter/datarouter/data_router.cpp with its header and of
--   score/datarouter/src/logparser/logparser.cpp. `LogParser` is in Router/Parser, `SourceSession` with
--   `ShowStats` in Router/Session, and its `Tick` in Router/Ticks, as one step, with the memory that it
--   shares with its client as an argument each time it looks at it. Calls of handlers, requests and lines
--   of the log are a list of outputs.
-- * MessageClient, of score/mw/log/detail/data_router/data_router_message_client_impl.cpp: the connect
--   thread, the callbacks of the connection and `Shutdown` are events in MessageClient/Client, and
--   `UnlinkSharedMemoryFile`, which no mutex guards, is three steps of a thread.
--   MessageClient/FileNames has the name of the shared memory file, of
--   shared_memory/writer_factory.cpp there and `ResolveSharedMemoryFileName` of
--   score/datarouter/src/daemon/socketserver.cpp.
--
-- A process writes records by SharedMemory into the blocks of Queue, and tells the router by a message
-- which block to read. MessageClient connects to the router and answers its requests for a block with
-- the number of the one that it switched from. MessagePassing keeps a session for each process and lets
-- its worker tick it; the tick of a session of Router reads the block and gives the records to the
-- handlers of their types, asks for the next block, and checks the quota of the process. For each message
-- that the handlers forward DltServer chooses the channels, and Channel puts the messages behind one
-- another in buffers and sends these. A package of FileTransfer is the payload of a message that Channel sends at once. A process
-- that records in a file lets FileRecorder put a header before each payload, and StatisticsReporter
-- says how many messages found no slot.
--
-- Loops are structural recursions, except those that read a buffer to its end. `drain` and
-- `read_entries` have fuel; `read_linear_buffer` gives one round more than there are bytes, and each
-- round moves the reader on by at least 8 bytes. `drain_spans` has fuel for the three spans that end a
-- message, and `read_file`, which reads a recorded file, as many rounds as there are messages.
--
-- What the code calls outside the repository is a parameter: the payload of a message
-- (`VerbosePayload`), the functions on bits (`BitFunctions`), the levels of mw::log (`LogLevels`), the
-- bytes of a header in memory (`HeaderLayout`), floating point numbers, the callbacks of the server with
-- the database behind them, what a socket answers to a call that sends, how the payload of a record
-- takes more bytes (`put`), the order in which statistics are sorted, whether a logger starts a record,
-- the number of an operating system error with the base name of a file, the description of a message
-- type (`get_dlt_msg_desc`), what is left of a name in an identifier (`identifier`), the comparison of a
-- rate with a quota (`exceeds`), the clock, and what a connection answers to a notification.
--
-- Not modelled: memory orders weaker than sequential consistency; the set-up of sockets, the message
-- passing library, Unix domain sockets and the mapping of memory, which are calls of the operating system
-- and of other libraries; `FinishPreviousSessionWhileLocked`, which only a test calls; times that are only
-- measured and shown; the class `FileRecorder` and its backend, the slots of the router's backend in a
-- logging process, the queue and the thread of the file transfer, and the reading of configuration files.
mod Prelude
pub mod Queue
pub mod SharedMemory
pub mod DltFormat
pub mod DltServer
pub mod Channel
pub mod FileTransfer
pub mod FileRecorder
pub mod StatisticsReporter
pub mod MessagePassing
pub mod MessageClient
pub mod Router
