-- ===== src/Lib.antt =====
-- The worker process of XiaoHG_SERVER: a TCP server on epoll that cuts the byte streams of its
-- connections into packets, checks and handles them in a thread pool, queues replies for a sending
-- thread, watches heartbeats, and recycles its connections.
--
-- The parts, and where they are:
--   Comm        _include/XiaoHG_Comm.h: the packet header and the limits
--   Memory      misc/XiaoHG_C_Memory.cxx: the heap blocks of messages (`CMemory`)
--   Connection  `stConnection` of _include/XiaoHG_C_Socket.h, and `GetOneToUse`
--   Server      the members of `CSocket` and `CMessageCtl`: the state that all operations share
--   Timer       net/XiaoHG_C_SocketTime.cxx: the queue of heartbeat timers; Timer/Insert has the
--               queue's invariant and what is put into it, Timer/Order what is taken out, Timer/Delete
--               the removal of a connection's timers
--   HeartBeat   net/XiaoHG_C_SocketTime.cxx: `HeartBeatMonitorThread` and `HeartBeatTimeOutCheck`
--   Pool        net/XiaoHG_C_SocketConn.cxx and `CloseConnectionToRecy` of net/XiaoHG_C_Socket.cxx:
--               the free list, the recycling queue (Pool/Recovery) and closing (Pool/Closing)
--   Receive     net/XiaoHG_C_SocketRequest.cxx and the receiving half of app/XiaoHG_C_MessageCtl.cxx;
--               Receive/Frame is the reader of packets that it is compared with, Receive/State the
--               invariant of a connection, Receive/Refine one read, Receive/Stream all of them,
--               Receive/Silent the reads that give no bytes,
--               Receive/Fresh a connection that comes from the pool, and Receive/Same one of which
--               nothing changes that the receiver reads
--   Crc32       misc/XiaoHG_C_Crc32.cxx: the checksum; Crc32/Table its table, Crc32/Fits its size
--   Epoll       `EpollRegisterEvent` of net/XiaoHG_C_SocketInet.cxx
--   Send        the sending half of app/XiaoHG_C_MessageCtl.cxx and of
--               net/XiaoHG_C_SocketRequest.cxx; Send/Push puts a message into the list, Send/One is
--               one message of the thread's loop over the list, and Send/Pass the loop
--   Business    `RecvMsgHandleProc`, net/XiaoHG_C_BusinessCtl.cxx, and `ThreadFunc` of
--               misc/XiaoHG_C_ThreadPool.cxx; Business/Accepts says which messages are handled,
--               Business/Reply what is answered
--   Events      net/XiaoHG_C_SocketAccept.cxx and `EpolWaitlProcessEvents`: the loop of the worker;
--               Events/Admit a client that is let in
--   Text        misc/XiaoHG_alg.cxx: `Trim` (Text/Spaces), `Ltrim` and `Rtrim` (Text/Trim)
--   Conf        app/XiaoHG_C_Conf.cxx: the configuration file; Conf/RoundTrip a file that is written
--               from items, Conf/Bounds the sizes of what is loaded, Conf/Ends the loop over the
--               lines, Conf/Numbers what `atoi` makes of numbers, and Conf/Lookup a number that is
--               found by its name
--   Log         app/XiaoHG_C_Log.cxx: the log; Log/Buffer the buffer of a line, Log/Lines what reaches
--               the file, Log/Bounds what is read and written behind the end of the buffer
--   Setup       `Init`, `OpenListeningSockets` and `Clear` of net/XiaoHG_C_Socket.cxx, and `InitEpoll`;
--               Setup/Pool the connections, Setup/Ports the loops over threads and ports, Setup/Attach
--               the loop of `InitEpoll`, Setup/Ready the state behind `Init`
--   Process     app/XiaoHG_C_MainArgCtl.cxx, app/XiaoHG_C_ProcessCtl.cxx and app/XiaoHG_C_RunInit.cxx:
--               Process/Environ the environment, Process/Title the title of a process,
--               Process/Daemon the daemon and the processes that are forked
--   Signal      signal/XiaoHG_C_Signal.cxx; Signal/Children what a signal does
--   Threads     misc/XiaoHG_C_ThreadPool.cxx without the work of its threads, and `ClearMsgSendList`;
--               Threads/Alerts how often an alert is written, Threads/Clearing the end of the queues
--   Worker      `WorkerProcessInit` and the loop of `WorkerProcessCycle`; Worker/Start the process
--               that has started
--   Start       app/XiaoHG_main.cxx, app/XiaoHG_C_RunInit.cxx and the cycles of
--               app/XiaoHG_C_ProcessCtl.cxx, which put Process, Signal and Worker together: every
--               process that comes from `main` (Start/Titles, Start/Daemons, Start/Works,
--               Start/Launch, with what they are to be in Start/Kinds), and the loop of the master (Start/Master)
--   Run         the threads of a worker process, one round after the other: a step relation, with the
--               books of connections, timers and messages (Run/Books), what the parts do to them
--               (Run/Timers, Run/Closes, Run/Receives, Run/Sends, Run/Works, Run/Serves), and each
--               thread's moves (Run/Refine)
--   Client      test/: the client that the repository tests the server with; Client/Headers and
--               Client/Packets its packets, Client/Wire what reaches the socket, Client/Served what
--               the server makes of it
--   Base        numbers, lists, words, outcomes and sequences of steps that the parts share
--   Fixtures, Examples   small states, and the tests at them
--
-- An operation takes the state and gives an `Outcome`: the state after it, the end of the process by
-- `exit`, or a thread that waits for a mutex that it holds itself. A pointer is an address, 0 the
-- null pointer; connections and message blocks are stores by address. `Memory.faults` counts the
-- deletes and uses of a block that is not live. A fresh block holds arbitrary bytes. The clock, and
-- what `recv`, `send`, `accept`, `epoll_wait` and `epoll_ctl` answer, are arguments. A call runs as
-- one step; of the mutexes only `m_TimeQueueMutex` is in the state, since a thread can meet it twice.
-- Counters of type `int` are unbounded integers, sizes and lengths wrap around as in the source; a
-- number of the configuration is cut to an `int` of 32 bits, and a negative one is what the
-- comparisons that use it make of it.
--
-- The loops that start again by `goto` run on fuel: one round more than there are entries, which
-- is proved to be enough for the timer queue, the recycling queue and the monitor. The loop over the
-- lines of the configuration and the one of `Trim` have one round more than there are characters,
-- which is proved to be enough, too, if no read fails; on an error the first goes on for ever. Statements about the receiver take flood detection to be off; a
-- `recv` gives at most the bytes that were asked for.
--
-- Not modelled: rounds of several threads that overlap, and what the other threads do when one waits
-- for ever; the calls that the parts make to the log, `PrintTDInfo` and `ConnectionInfo`, which only
-- write to the log; and of the test client its menu and the copies that it forks.
pub mod Base
pub mod Comm
pub mod Memory
pub mod Connection
pub mod Server
pub mod Timer
pub mod Pool
pub mod Receive
pub mod Run
pub mod HeartBeat
pub mod Crc32
pub mod Epoll
pub mod Send
pub mod Business
pub mod Events
pub mod Text
pub mod Conf
pub mod Log
pub mod Setup
pub mod Process
pub mod Signal
pub mod Start
pub mod Threads
pub mod Worker
pub mod Client
pub mod Fixtures
pub mod Examples
