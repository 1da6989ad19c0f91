-- ===== src/Lib.antt =====
-- A web server: a connection's bytes are read into a buffer, two nested state machines cut them into
-- lines and parse a request, do_request finds a file, process_write makes the head of an answer, and
-- write() sends the head and the mapped file. Beside the connections there are a pool of MySQL
-- connections, the pool of threads that process requests, the log with its bounded queue, and the list of
-- timers that closes idle clients. The main loop takes the events of epoll, reads and writes for the
-- clients, hands requests to the threads, and keeps the timers.
--
-- Prelude: lists, integers and Boolean tests over the native numbers, shared by all modules.
-- Http.Text: C strings in byte arrays, and the functions of the C library that the parser calls.
-- Http.Conn: the fields of http_conn (http/include/http_conn.h) and init(). A pointer into m_read_buf
--   is an index; NULL is none; the mapped file is the bytes that can be read from it.
-- Http.Line: http/src/http_conn.cpp, parse_line.
-- Http.Request: parse_request_line, parse_headers and parse_content of that file. What has no defined
--   behaviour in C++ (a string function on NULL, an access outside an array) is the result `fault`.
-- Http.ProcessRead: process_read, with the handler of complete requests as a parameter.
-- Http.DoRequest: do_request, which is that handler: forms and accounts, the choice of the file, and its
--   mapping. stat(), what open() and mmap() of the size found give, which may be a failure of either,
--   and mysql_query() are parameters; `users` is passed from call to call.
-- Http.Response: add_response and the functions that call it, and process_write.
-- Http.Send: write() and unmap(). What each writev returns is a list of inputs.
-- Http.Worker: read(), process(), close_conn() and init(fd, address) of the same file. What each recv
--   returns is a list of inputs.
-- BlockQueue: log/include/block_queue.h. A method runs under the mutex and is one step; what the other
--   threads do while pop() waits, and what pthread_cond_wait then returns, is an input.
-- ConnectionPool: cgimysql/src/sql_connection_pool.cpp. The making of a connection is a parameter. The
--   threads that get and release connections are a step relation: a step is what a thread does under the
--   lock, or one call on the semaphore.
-- ThreadPool: threadpool/include/threadpool.h, in the same manner: the threads that append requests and
--   the workers that take them.
-- Http.LoadUsers: initmysql_result of http/src/http_conn.cpp, which fills the table of users, and
--   connectionRAII of cgimysql/src/sql_connection_pool.cpp around it and around the work on a request.
-- Http.Epoll: setnoblock, addfd, removefd and modfd, as the system calls that they make; and those of
--   process().
-- Timer: timer/src/lst_timer.cpp, the doubly linked list on a heap of addresses. Timer.Chain and
--   Timer.Holds say which sequence of timers a list stands for.
-- Log: log/src/log.cpp and the thread of log/include/log.h that writes. fopen(), the time, and the text
--   that vsnprintf would print are inputs; a `FILE *` is the path that it was opened with.
-- Server: main.cpp, the loop over the events, with what the system calls return as a part of each event.
--   It calls Timer, Http.Worker, Http.Send and ThreadPool. Server.InOrder says what holds between events,
--   and Server.Effects what each kind of event does.
--
-- parse_line runs on the number of bytes between its index and the end of what was received, which is
-- how often the loop of the source can go round. process_read runs on two rounds for each of these
-- bytes and two more: a round that goes on consumes a byte, or turns the status from LINE_OK to another.
-- Numbers are natural numbers; where the source has an `int` that a client can make negative or overflow
-- (Content-Length, the counts of bytes to send, the offsets of the iovecs) it is an integer, held to 32
-- bits where the source converts.
--
-- The loops of the timer list run on a number of rounds, which has to be that of the timers in the list;
-- the main loop gets one that is above the number of timers and events.
--
-- Not modelled: what the kernel does with the calls on epoll, which are recorded, and what main() does
-- before its loop, which is system calls only; the output to the terminal, and the calls of the log from
-- other code; what the workers do to a connection while the main loop runs; the standard containers'
-- memory; and the MySQL client.
pub mod Prelude
pub mod Http
pub mod BlockQueue
pub mod ConnectionPool
pub mod ThreadPool
pub mod Timer
pub mod Log
pub mod Server
