-- ===== src/Lib.antt =====
-- wserver: an HTTP server in the style of one event loop per thread.
--
-- A main loop accepts connections and hands each to the loop of an I/O thread, taken in turn. A
-- loop waits in epoll for its channels, runs their handlers, and then the functors that were
-- queued. A connection reads the bytes of a request into its input buffer, its HTTP context parses
-- them and puts a response into the output buffer, and the bytes of that buffer are written to the
-- socket. A connection that asks to be kept is closed by a timer. The paths below are those of the
-- repository.
--
-- Buffer         Buffer.h, Buffer.cpp: append, getAnHTTPLine, readFromFd, writeToFd
-- HttpContext    HttpContext.h, HttpContext.cpp: the request parser and the responses
-- TimerHeap      TimerHeap.h, TimerHeap.cpp, Timer.h: timers in a binary heap
-- Channel        Channel.h, Channel.cpp: event masks and the dispatch of events
-- Epoll          Epoll.h, Epoll.cpp: m_channels and the registrations with the kernel
-- TcpConnection  TcpConnection.h, TcpConnection.cpp: the states and handlers of a connection
-- EventLoop      EventLoop.h, EventLoop.cpp: pending functors, wakeups, removal of channels
-- EventLoopThreadPool  EventLoopThreadPool.h, EventLoopThreadPool.cpp: loops in turn
-- LogStream      base/LogStream.h, base/LogStream.cpp: numbers as text, the fixed buffer
-- AsyncLog       base/AsyncLog.h, base/AsyncLog.cpp: the buffers of the log thread
-- LogFile        base/LogFile.h, base/LogFile.cpp: rolling and flushing of log files
-- FileUtil       base/FileUtil.h, base/FileUtil.cpp: the file that is appended to
-- Acceptor       Acceptor.h, Acceptor.cpp, Socket::accept: the loop that accepts
-- TcpServer      TcpServer.h, TcpServer.cpp: connections by their names
-- EventLoopThread  EventLoopThread.h, EventLoopThread.cpp, Thread.h, Thread.cpp: a thread with a loop
-- CountDownLatch  base/CountDownLatch.h, base/CountDownLatch.cpp: a latch
-- CurrentThread  base/CurrentThread.h, base/CurrentThread.cpp: the id of a thread
-- Logging        base/Logging.h, base/Logging.cpp: a log statement
-- Socket         Socket.h, Socket.cpp: the system calls on a descriptor
-- Mutex          base/Mutex.h: the mutex and its guard
-- Condition      base/Condition.h: the condition, and the deadline of waitForSeconds
-- TimeUtils      base/timeUtils.h, base/timeUtils.cpp: the time stamp
-- Main           main.cpp: the program from its start
-- Prelude        shared names, lists over the native numbers, and outcomes
--
-- A call that can be lost ends in `Exec`: `done` with its value, or `stop` with the reason, an
-- access out of bounds, through a null pointer or to an object that is gone, a LOG_FATAL line
-- (whose destructor calls abort), the overflow of an int, or the model's bound on a loop. `Returns
-- P r` says that the call returns, with a value of which P holds, so no theorem of that form is met
-- by a run that is lost.
--
-- Bytes are numbers, and a std::string or a range of a vector is a list of them. A Buffer keeps its
-- two indices and its storage; a difference of indices is that of std::size_t, with its wrap-
-- around, and the theorems ask for sizes below 2 ^ 31, which the conversions to int keep. The
-- results of read(2), write(2) and epoll_wait(2), the clock and the text of timeStamp() are
-- arguments: lists of results for the loops that call them, whose end stands for EAGAIN.
-- epoll_ctl(2) is the parameter Kernel of Epoll, whose laws are those of its manual page;
-- Epoll.Table has a table that obeys them. Objects at addresses (Channel*, the loops, the functors)
-- are numbers. In TcpConnection the channel and the epoll of its loop are part of the state, and
-- what is asked of the socket, the timers and the server is recorded in order.
--
-- Loops over a buffer are structural on the number of bytes left. The parser's loop has fuel for
-- the readable bytes and three rounds more: every round but the two last ones takes a line of two
-- bytes at least. The loops that restore the heap have a round for each of its slots, since the
-- index goes to a later child or an earlier parent in each; handleTimeoutEvents has one round more
-- than there are timers.
--
-- EventLoop is a step relation: other threads push a functor under the mutex and then write to the
-- eventfd, in two steps between which the loop's thread may do anything; `owed` counts the threads
-- between the two.
--
-- EventLoop.Looping has loop() as a function of its passes, each with what other threads, handlers
-- and functors call in it; the loop that has no pass left waits in poll, which is the outcome
-- out_of_fuel. CountDownLatch.Monitor is the relation of the steps of any number of threads that
-- wait for a latch or count it down, with the mutex and the condition as POSIX describes them; a
-- wait may end without a broadcast in what is reached, but not in the steps that are shown to let a
-- call return.
--
-- AsyncLog.System is a relation of the same kind: the front ends call append and the back end takes
-- buffers and writes them, in any order; FixedBuffer::append copies with strncpy, so a message is
-- logged with NULs from its first NUL on. In EventLoopThread a wait on a condition is a flag that a
-- signal clears, and that may also be cleared by itself. Logging.Output is a relation of the lines
-- of a process and the steps of the thread that the first of them starts. TcpServer.Ledger is the
-- server with its table as a function of the ids, and its tasks as what the loops are told; the
-- keys of the server's own map are texts, which are made of the ids. Main.Start is that server from
-- the start of main, under the turns of the main loop. TcpServer.Lifetime is the relation of the
-- steps that make and drop references to one connection, while the server lives; its events are
-- what their handlers call, in any order.
--
-- Not modelled: the waits of the log threads, the destructor of AsyncLog, the functions of Logger
-- that set the level and the outputs, the destructors of EventLoopThread and Thread, the programs
-- under client and test, and webbench. Allocation does not fail. The handlers run in the thread of
-- their loop, which assertInLoopThread checks, so this check is not part of them; it is in
-- EventLoop.Registry.
pub mod Prelude
pub mod Acceptor
pub mod AsyncLog
pub mod Buffer
pub mod Channel
pub mod Condition
pub mod CountDownLatch
pub mod CurrentThread
pub mod Epoll
pub mod EventLoop
pub mod EventLoopThread
pub mod EventLoopThreadPool
pub mod FileUtil
pub mod HttpContext
pub mod LogFile
pub mod LogStream
pub mod Logging
pub mod Main
pub mod Mutex
pub mod Socket
pub mod TcpConnection
pub mod TcpServer
pub mod TimeUtils
pub mod TimerHeap
