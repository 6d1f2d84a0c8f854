-- ===== src/Lib.antt =====
-- A model of XJBLG: the network library, HTTP parser and chat messages of NETLIB, the vector and
-- the list of LSTL, and the card game of AAA.
--
-- Parts. A TcpConnection owns a Channel, which holds the events it asks the loop for, and two Buffers:
-- bytes that the kernel delivers go to the input buffer, bytes that the kernel does not take at once
-- wait in the output buffer. HttpContext takes requests out of the input buffer, line by line, and
-- ChatContext takes framed messages out of it, which JsonItem takes apart into fields. A ChatServer
-- answers the messages: it keeps who is online and which messages are not acknowledged, asks its UserModel
-- in MySQL, and keeps in Redis what waits for a user who is offline.
-- An EPoller keeps the channels of a loop and tells the kernel what they ask for, and a Poller does so
-- with poll(2), in no loop; a TimerQueue calls back
-- when times come; an EventLoop runs the functors that other threads queue; a ThreadPool runs tasks on
-- threads of its own. A Connector makes a connection, and an EventLoopThreadPool chooses its loop. The
-- vector, the list and the card game stand alone: a Dealer deals, weighs and compares the hands of its Players.
--
-- Files.
-- Base: shared names, Boolean tests, the chain of calls that may fail, and below it Lists, Words
--   (size_t arithmetic modulo 2^64), Text (strings as bytes, std::stoi), Dict (std::map), Maps (maps and heaps
--   as functions) and PairSet (std::set of pairs).
-- Net/Buffer: NETLIB/net/Buffer.h, and Net/Buffer/Read: Buffer.cpp. `buffer_` is `bytes`, the indices
--   are `reader` and `writer`, a pointer is an index. make_space is makeSpace, find_crlf is findCRLF
--   and so on. Inv holds the invariant and growing, Consume what takes bytes out or puts them in
--   front, Search and Lines the search for line ends.
-- Net/Connection: NETLIB/net/TcpConnection.h, TcpConnection.cpp, and the flags of Channel.h and
--   Channel.cpp. Stream holds sending, Drain the write event, Steps the other calls, Run every sequence of
--   them, Lifecycle how a connection ends.
-- Net/Connector: NETLIB/net/Connector.h, Connector.cpp; Faults holds what goes wrong. Net/LoopPool:
--   EventLoopThreadPool.h, EventLoopThreadPool.cpp; RoundRobin holds the order of the loops.
-- Net/Channel: the data of NETLIB/net/Channel.h; Dispatch: handEvent of Channel.cpp. Net/Epoller: EPoller of
--   Epoll.h, Epoll.cpp, with `change` for enableReading and the like and `remove` for Channel::remove. Invariant
--   holds what poller and kernel agree on, Updating and Removal the calls, Sequences every sequence of
--   them, Waiting the poll. Net/Poller: Poller of the same files; Tracking holds what its map, indices and
--   entries agree on, Leaving the removal, Faults what a channel can not do.
-- Net/EventLoop: the pending functors and the wakeup of Eventloop.h, Eventloop.cpp; Wakeups holds their order.
-- Net/Timers: TimeQueue.h, TimeQueue.cpp, Timer.h, Timer.cpp, Timestamp.h. Queue holds the invariant, Adding,
--   Cancelling, Expiry and Round the calls.
-- Net/ThreadPool: ThreadPool.h, ThreadPool.cpp. Order holds the order of the tasks, Stopped what a stop leaves.
-- Http/Request: NETLIB/application/http/HttpRequest.h. Http/Context: HttpContext.h, HttpContext.cpp;
--   one round of the loop of parseRequest is `round`. Progress holds its termination, RoundTrip printing
--   and parsing, Faults what goes wrong.
-- Chat/Json: NETLIB/function.h, function.cpp (parseJson, a round of its loop is item_round). Chat/Message:
--   encodeMessage of NETLIB/application/chat/ChatServer.cpp. Chat/Context: ChatContext.h, ChatContext.cpp,
--   and the frame of ChatServer::sendMessage. Parsed and Parsing hold what parseJson does on encoded and
--   on all messages, Frames and Received how a stream of messages is delivered.
-- Chat/Exec: actions on a state. Chat/Model: ChatModel.h, ChatModel.cpp of NETLIB/application/chat and
--   NETLIB/mysql/mysqlDB.h; Answers holds what is read out of the printed answers. Chat/Redis:
--   NETLIB/redis/redisDB.cpp. Chat/Server: ChatServer.h, ChatServer.cpp, with sendMessage; Login, Actions and
--   Events hold the requests and the other callbacks. Keeps has the rules for what an action keeps;
--   Waiting, Kept, Requests, Timeouts, Delivery and Sent hold what becomes of a message, Places who is
--   online, Passwords who may log in, Resending and Requoted what a login sends again. Chat/Client:
--   ChatClient.h, ChatClient.cpp; Acks holds the acknowledgement from client to server.
-- Lstl/Vector: LSTL/vector.h, and the loops of algorithm.h, uninitalized.h and construct.h. Loops holds what the
--   loops write, Sequence what it means to hold a sequence, Inserting, Growing and Erasing the operations.
-- Lstl/Linked: LSTL/list.h, where a node is a number. Chain says what linked nodes are, Inserting, Erasing and
--   Clearing the operations.
-- Joker/Cards and Joker/Table: AAA/joker.h, AAA/joker.cpp. Deal, Progress, Compare and Ranking hold the
--   laws of dealing, comparing and weighing.
-- A module Examples in a folder holds concrete runs.
--
-- State and errors. An operation takes the state and returns the new one. A call that fails an assert,
-- throws, or does not return is `none`. Bytes are numbers; a text is the list of its bytes. What the
-- kernel answers to read, readv, write, connect, poll and epoll_wait, the time, the addresses of new timers and
-- nodes, and what rand() returns, are arguments. epoll_ctl is a parameter, with what epoll(7) says of it as laws; so
-- are MySQL, with no laws, Redis, with what its commands do to sets, and what getSeq and getNowTime return.
-- The chat server handles one callback at a time; `effects` lists what it asks of its connections.
-- The threads of the pool, and those that queue functors, take turns in any order; a step is a section
-- under the mutex.
--
-- Bounds. Indices of a Buffer are size_t: sums and differences wrap at 2^64, and so does the size of a
-- vector's new block; what the code stores in an int keeps its lower 32 bits. s_numCreated_ is taken to
-- stay below 2^31, and to be used by one queue of timers. A vector of char has at most
-- 2^63 - 1 bytes, and resize beyond that throws. The loop of parseRequest runs on fuel, two more than
-- the readable bytes; each round that goes on takes two bytes, so it is enough. The loop of parseJson has
-- fuel for each byte of its text, and each round takes one; the loop of onMessage has one more than the
-- readable bytes, and each round that goes on takes four. dealACard draws from a list; a list in which
-- each number below 52 comes up is long enough. The loop of clear has fuel for one round more than there
-- are values in the list.
--
-- Not modelled. Printing and logging; calls on a connection from another thread than the loop's; what a
-- user callback does to a connection while it runs; the callbacks of the chat server in several threads
-- at once; the event loop but for its queue of functors; TcpServer, Acceptor and
-- TcpClient; HttpServer and HttpResponse; of list.h, what walks over
-- ranges and what does not compile; the allocator of LSTL; and the wrappers of
-- threads, locks and sockets.
pub mod Base
pub mod Net
pub mod Http
pub mod Chat
pub mod Lstl
pub mod Joker
