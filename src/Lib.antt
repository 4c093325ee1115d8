-- ===== src/Lib.antt =====
-- Verification of the web server of this repository (practice/), a C++ program on epoll: a main
-- thread accepts connections and reads and writes them, a pool of workers parses the requests and
-- makes the responses, a time wheel closes connections that are idle, and a logger writes what the
-- other parts tell it from a thread of its own.
--
-- How the parts interact. webServer.cpp hands a connection that has bytes to ThreadPool::append;
-- a worker calls Http_Conn::process, which runs process_read over the read buffer and then
-- process_write, which leaves a head in the write buffer and a mapped file beside it; the main
-- thread then calls Http_Conn::write. LOG puts its message into the BlockQueue, whose other end
-- the logger's thread empties.
--
-- Which file models which part.
--   Common       helpers: lists, C strings (a buffer is a list of bytes, a pointer an index into
--                it), int (Common/Int), the ways a piece of code ends (Common/Run: a value, a
--                fault where C++ leaves an access undefined, or no fuel), and families of threads
--                (Common/Threads).
--   Http         class Http_Conn of practice/http/httpConnection.h: the record Conn has the
--                class's fields by name, a pointer field as an Option. Http/Receive is read,
--                Http/Line is parse_line, Http/RequestLine is parse_request_line, Http/Headers
--                is parse_headers, Http/Content is parse_content and do_request, Http/Read is
--                process_read, Http/Respond is add_response with the functions that call it and
--                process_write, Http/Write is init(), unmap and write, Http/Process is
--                process and close_conn, which add the fields of Task to Conn. Their children
--                hold the proofs: Receive/Laws, Line/Laws and Line/Complete, RequestLine/Laws and
--                RequestLine/Url, Headers/Laws, Content/Laws, Read/Progress, Read/Ends,
--                Read/HeaderLine, Read/Stuck and Read/Crash, Respond/Laws and Respond/Pages,
--                Write/Laws and Process/Laws. Http/Numbers has what
--                %d and atol make of each other. Http/Samples has the connections that Http/Tests
--                and Http/ResponseTests run; the other components have tests of their own.
--   BlockQueue   practice/log/blockQueue.h. A step relation: each thread stands at a point of
--                insert or remove (Pc), a Move is one statement of it, and a Step lets any thread
--                take a Move. BlockQueue/Invariant has the account of the semaphores,
--                BlockQueue/Contents the ring as a list, BlockQueue/Order what follows.
--   ThreadPool   practice/threadpool/threadPool.h, in the same way: append, append with a state
--                and run. ThreadPool/Invariant, ThreadPool/Order and ThreadPool/Limit have the
--                proofs.
--   TimeWheel    practice/timer/timeWheelTimer.h. A timer is an address, its links are functions of
--                addresses with a set of those that live (Common/Links), and an access to one that
--                does not is a fault. TimeWheel/Invariant has the slots as lists; TimeWheel/Inner,
--                Remove and Set have what the operations do to them, TimeWheel/Tick and Due what
--                tick does and when a timer is called.
--   TimerList    practice/timer/ascendSortedTimerList.h, on the same links. TimerList/Invariant has
--                the list and its order, TimerList/Place, Add, Remove, Set and Tick the operations.
--   WebServer    practice/web_server/webServer.cpp: the record Server has the array users, the static
--                members of Http_Conn, the wheel and a log of the calls of the kernel and the pool.
--                WebServer has deal_connection, deal_err, deal_close, deal_read, deal_write and
--                timer_cb_func, WebServer/Loop has deal_signal and eventloop. WebServer/Invariant
--                has what holds between timers and connections, Close, Adjust, Open, Transfer,
--                Timers and Events that each operation keeps it, and WebServer/Idle what idle
--                connections see.
--                WebServer/Workers has a worker's call of process on an entry of users, with its calls
--                to the wheel (Workers/Calls), what read leaves (Reads), what the task keeps (Tasks)
--                and the turns of the main thread and the workers (Turns).
--   Logger       practice/log/logger.cpp. A step relation: each writer stands at a point of worker
--                (Pc), callers of addItem and stop take steps between theirs, and the BlockQueue is
--                a list. Logger/Laws counts the messages, Logger/Order has their order, Logger/Stop
--                what is left when the writers have ended.
--   Support      practice/src/support.cpp: open_listenfd and open_clientfd return their result and
--                the descriptors that are open, addfd, modfd and removefd change what epoll watches.
--   MinHeap      mine/practice/minHeapTimer.h: the array is a function with a capacity, an access beyond
--                it a fault, as one to a timer that has been deleted. MinHeap/Order has the order while an entry moves up, MinHeap/Up and
--                Add what add_timer does; MinHeap/Sink has the order while one moves down, Down and
--                Pop what pop_timer does, Build the constructor from an array, Tick tick. The memory of
--                deleted timers is not followed.
--   ProcessPool  mine/practice/processPool.h: the constructor over what fork returns (ProcessPool/Fork),
--                run_parent in ProcessPool/Parent, run_child in ProcessPool/Child, run in
--                ProcessPool/Role, as functions of what the calls of epoll_wait report. Parent/Allocate
--                has the choice of a child, Parent/Turns their turns, Parent/Signals and LastChild what
--                happens when children end, Child/Pipe the child's end of its pipe. An assert that
--                fails is a fault.
--   RequestParse mine/practice/httpRequestParse.cpp, the parser that Http_Conn grew from, with main's loop;
--                its parse_line is that of Http/Line. RequestParse/Lines has that parse_content ends,
--                Words the request line, Headers the header lines and Request a whole request.
--
-- What the definitions assume of code that is not in the repository. The file system is a
-- parameter of do_request (what stat, open and mmap find under a path). writev is a sequence of
-- results, each a count of bytes, EAGAIN or an error, and so is recv, with
-- the bytes that wait for it, of which it stores as many as it is asked for.
-- printf's %d and %s are written out in Http/Respond, and vsnprintf's bound with them. sem_wait
-- and a mutex pass only when their count is above zero, each atomically; a mutex is a semaphore of
-- one. `new` returns an address where no timer lives, accept a descriptor that is not open. The
-- numbers of the signals are those of Linux. The main thread's handling of one event and a
-- worker's task are turns, in any order (WebServer/Workers): what their statements may do to one
-- another when they run at the same time is not modelled.
-- `while(!pool->append(...));` is one call in the log, since it ends with the request in the
-- queue. Http_Conn() leaves the socket and the timer of an entry without a value: `initialised`
-- has the entries on which init was called, and what would read these members of another is a
-- fault. epoll reports registered descriptors only, and accept returns one below RLIMIT_NOFILE,
-- which has to be at most MAX_FD, since deal_connection does not compare the two.
--
-- Bounds. int is ℤ of Common/Int, with the conversion from 32 bits where the source converts.
-- BlockQueue's `++rear` and `++front` are steps only while they stay below 2^31: beyond that
-- the source overflows int, after as many messages. process_read runs on fuel, twice the bytes
-- that are not yet checked plus two: a round of the loop either returns, moves m_checked_idx on
-- by a line, or leaves LINE_OK behind and ends with the next test. write and read run over the
-- lists of what writev and recv return, and a list that is too short is reported as such. tick
-- of the wheel runs on fuel, one more than the timers of its slot: the server gives MAX_FD + 1,
-- and no slot has more timers than users has entries. The search and tick of the sorted list
-- run on fuel above the length of the list, add_timer, pop_timer and tick of the heap above its
-- entries, and the process pool's search for a child on fuel of at least the number of children. The
-- turns and times of timers are numbers without a bound, where the source has int and time_t.
--
-- Not modelled. The times that the logger puts in front of a message (practice/log/logger.cpp),
-- addsig and send_error of practice/src and the wrappers of pthread in practice/lock only call the
-- system. The constructor and the destructor of ThreadPool create and free threads, which the step
-- relation has from its start; the destructors of the timers' containers free what is left in them.
-- The other programs of mine/ are exercises from which practice/ grew: its Http_Conn, web server,
-- thread pool, timers and locks are earlier versions of the parts that are modelled here, and the
-- chat rooms and the small servers beside them are programs of one function around calls of the
-- system. test_pressure/ has a copy of webbench, a program of others.
pub mod Common
pub mod Http
pub mod BlockQueue
pub mod ThreadPool
pub mod TimeWheel
pub mod TimerList
pub mod WebServer
pub mod Support
pub mod Logger
pub mod MinHeap
pub mod ProcessPool
pub mod RequestParse
