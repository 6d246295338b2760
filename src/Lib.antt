-- ===== src/Lib.antt =====
-- A model of the network library myMuduo, of the poller of the earlier muduo, of the sort and the
-- search tree of Alog, of the disk usage of LinuxSystemProgram, of the token bucket and the start of
-- BroadCast, of the player of SDLRe and of the prime counters of C++20.
--
-- An EventLoop runs in one thread. It waits in a Poller for the events of its channels, runs their
-- callbacks, then the functors that other threads or the callbacks have queued. The Poller keeps the
-- kernel's epoll instance in step with the table of channels. A TimerQueue gives the loop its timers
-- through one timerfd. A Connector dials a server with the loop's channels, timers and functors, an
-- Acceptor takes the connections of others, and both use InetAddress. A Thread runs a function besides
-- its owner. A Buffer holds the bytes of a connection, and a LogStream the text of a log line. The
-- token bucket limits the rate of the broadcast server. The player of the game SDLRe moves on a map of
-- tiles.
--
-- Base.antt: shared names; the outcome of a call, `ok` or `abort`, which is a failed assert, LOG_FATAL,
--   LOG_SYSFATAL or a read through a null or freed pointer; lists and integers over native numbers.
-- Buffer.antt: myMuduo/lib/Buffer.hpp and Buffer.cpp. readv(2) is an argument of readFd: how many
--   bytes it delivered and which. Sizes wrap around at 2 ^ 64.
-- Channel.antt: the events and the poller's mark of myMuduo/lib/Channel.hpp, with the masks of
--   muduo/lib/channel.cpp, since myMuduo has no Channel.cpp.
-- Epoll.antt: what epoll_ctl(2) and epoll_wait(2) document, as an interface, and a table that has it.
-- Poller.antt: myMuduo/lib/EpollPoller.cpp and Poller.cpp, over any such kernel.
-- Reactor.antt: how EventLoop.cpp hands its channels to its poller, with the class of pollers of
--   myMuduo/lib/Poller.hpp. Reactor/Board.antt is what a poller promises, and
--   Reactor/Lifetime.antt the constructor and the destructor of a loop.
-- OrderedSet.antt: the operations of a std::set of pairs that the timer queue uses.
-- Timer.antt: myMuduo/lib/Timestamp.hpp, Timestamp.cpp and Timer.cpp; times are microseconds.
-- TimerQueue.antt: myMuduo/lib/TimerQueue.cpp, with the timers in a store, so that a freed timer is not
--   read unnoticed. A callback is the list of the timers that it adds and cancels. TimerQueue/Shared.antt
--   has the calls from other threads.
-- EventLoop.antt: myMuduo/lib/EventLoop.cpp, its timers in EventLoop/Timers.antt. A functor is the tree
--   of what it does to its loop, which is finite, so that no fuel is needed. The loop's input is a list
--   of rounds: what other threads call before poll returns, and what it returns. What other threads do
--   while a callback or a functor runs stands in that functor's tree.
-- Connector.antt: myMuduo/lib/Connector.cpp, as a state machine whose events are its public calls, the
--   events of its channel and its timer. It owns descriptors; to close one that it does not own is
--   `abort`.
-- LogStream.antt: myMuduo/lib/LogStream.hpp and LogStream.cpp. The loops of convert and convertHex run
--   on fuel, 20 and 16 digits, which 64 bits do not exceed.
-- TokenBucket.antt: BroadCast/lib/mytbf.cpp. Ints are 32 bits wide; an overflow is `abort`.
-- EventLoopThreadPool.antt: myMuduo/lib/EventLoopThreadPool.cpp.
-- Game.antt: SDLRe/lib/Player.cpp, MapManager.cpp and TileMap.cpp, whose drawing is in Game/Render.antt.
--   Game/Frames.antt has the frames of SDLRe/lib/Game.cpp.
-- Sockets.antt: myMuduo/lib/Endian.hpp, InetAddress.hpp, InetAddress.cpp and the functions of
--   SocketOps.cpp that read and write addresses, over any byte order and any text of addresses.
-- Acceptor.antt: myMuduo/lib/Acceptor.cpp with the accept of Socket.cpp and SocketOps.cpp. The
--   descriptors that are open are part of the state; the kernel's answers are arguments.
-- Thread.antt: myMuduo/lib/Thread.cpp. The thread and its owner go on in steps, in any order.
-- HeapSort.antt: Alog/lib/heap.cpp. The fuel of maxHeapfiy is one more than the size of the heap, which
--   it cannot use up, since its index grows.
-- BinarySearchTree.antt: Alog/lib/binarySearchTree.cpp, on a store of nodes. Each loop and recursion
--   runs on fuel; more than the number of nodes is enough.
-- PollPoller.antt: muduo/lib/poller.cpp and the callbacks of muduo/lib/channel.cpp.
-- DiskUsage.antt: LinuxSystemProgram/include/mydu.cpp, over any lstat and glob. Its fuel is the number
--   of files and directories below and two more.
-- Broadcast.antt: the options and the start of BroadCast/src/main.cpp.
-- Primes.antt: C++20/include/thread.hpp and tools.hpp, over any std::sqrt that is exact below 2^52. The
--   fuel of isPrime is its number.
--
-- Not modelled: the logger of myMuduo, which is another project's, its wrappers of single system calls
-- and its event loop threads, which do not compile; the rest of the earlier library muduo, which is
-- unfinished; the textures of SDLRe; the programs client and VulkanDemo and the rest of C++20 and
-- LinuxSystemProgram; and all else that is input or output. Doubles are left out: a delay or an
-- interval is a number of microseconds, and the text of a double is an argument.
pub mod Acceptor
pub mod Base
pub mod BinarySearchTree
pub mod Broadcast
pub mod Buffer
pub mod Channel
pub mod Connector
pub mod DiskUsage
pub mod Epoll
pub mod EventLoop
pub mod EventLoopThreadPool
pub mod Game
pub mod HeapSort
pub mod LogStream
pub mod OrderedSet
pub mod PollPoller
pub mod Poller
pub mod Primes
pub mod Reactor
pub mod Sockets
pub mod Thread
pub mod Timer
pub mod TimerQueue
pub mod TokenBucket
