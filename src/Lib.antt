-- ===== src/Lib.antt =====
-- MyTinyNetworkLibrary: a Reactor network library in C++ and the object detection server built on
-- it. A connection reads bytes into a Buffer; the HTTP server hands the buffer to the HttpContext of
-- the connection, which parses requests as they arrive; a controller turns a request into a task for
-- the InferenceScheduler, which asks the ModelRegistry for a backend, queues the task up to a bound
-- and lets its workers run it, and the InferenceMetrics count what happens.
--
-- Which file models what:
-- - Base: shared tests, lists, byte strings, 64-bit words and signed numbers.
-- - Buffer (src/muduo_core/Buffer.h, Buffer.cc): the storage with its two indices, append, retrieve,
--   findCRLF, readFd and writeFd. Buffer/Inv has the invariant, Buffer/Contents what the operations
--   do to the readable bytes, Buffer/Fd the two calls on a descriptor.
-- - Http (src/http/HttpRequest.h, HttpContext.h, HttpContext.cc): Chars is the C library's part,
--   Fields the maps of strings, Request the request, Multipart parseMultipartBody, Context the rest
--   of the parser. Context/Spec is the parser over plain bytes, and Context/Refine relates it to
--   the one over a Buffer; Context/Times is about the receive time, and the other files beside them
--   about whole calls.
-- - Http/Response (src/http/HttpResponse.h, HttpResponse.cc), with Response/Text for the bytes on the
--   wire, and Http/Server (src/http/HttpServer.h, HttpServer.cc), the loop of onMessage over the
--   parser and the connection, with Server/Total for whole calls.
-- - Reactor (src/muduo_core): Channel, Poller (EPollPoller over the kernel's interest list) and Loop
--   (EventLoop's pending functors). Loop/System puts the thread of the loop and the threads that
--   queue functions together as steps in any order.
-- - Tcp/Connection (src/muduo_core/TcpConnection.h, TcpConnection.cc): an operation returns the new
--   connection and the list of its effects outside: what it wrote, the callbacks it called or queued,
--   the changes of its channel. Flow, Kept, Stream, Written and Writing are about the sent bytes.
-- - Tcp/Pool and Tcp/Server (src/muduo_core/EventLoopThreadPool.h, .cc, TcpServer.h, .cc): the round
--   robin of the loops and the map of connections; Server/Differs and Server/Names are about their names.
-- - Logger (src/logger): Fixed (FixedBuffer.h), Async (AsyncLogging.h, AsyncLogging.cc), File (FileUtil
--   and LogFile) and Stream (LogStream.h, LogStream.cc). Async/Order puts the logging threads and the
--   writing one together as steps in any order.
-- - Timer (src/timer, src/base/Timestamp.h): the ordered set of timers with the timer descriptor.
-- - Inference (src/inference): Types and the backend interface, Registry (ModelRegistry), Scheduler
--   (InferenceScheduler), Mock (MockBackend), Metrics (InferenceMetrics, with Metrics/Render for its
--   text) and Yolo (YoloV8Processor). Registry/Load is loadFromFile, and Registry/Entry one entry of
--   its file. Yolo/Scale is preprocess, with every access of an array looked up, and Yolo itself
--   postprocess. Scheduler has a function for each hold of the mutex; Scheduler/System puts clients,
--   start, stop and workers together as steps in any order, with a record of the tasks let in, taken
--   and completed.
-- - Api (src/api): Json (InferenceJson), Controller (InferenceController), whose Handle has handle and
--   handleAsync over the scheduler and a connection, and Management (ManagementController).
-- - Main (src/http/main.cc): Config has the settings from the environment, Routes onRequest over the
--   controllers, Favicon the bytes of the icon.
--
-- Names are the source's in snake_case. `size_t` is a natural number below 2 ^ 64 with the wrap-around
-- written out, and so is the `int` that numbers the connections; a byte is a number. Text is a list of bytes. Maps are lists of keys with values, and
-- where the C++ map leaves the order open it is the order of first use. A function that can fail
-- returns what the source leaves behind as well.
--
-- Fuel: parse_request gives its loop one more round than there are readable bytes, and every line
-- takes at least two of them; the loops of multipart parsing and of part headers have a round for
-- each byte of the body, and every round takes bytes. The loop of onMessage has two more rounds than
-- there are unread bytes, and that of FileUtil::append one more than there are bytes to write.
--
-- Assumed: readv delivers no more bytes than its areas hold, and a vector can grow by what is asked.
-- Backends are any functions on a state that they share. The scheduler's registry pointer is not null.
-- epoll_ctl concerns one descriptor, and adds or changes it where it succeeds; write takes a part of what
-- it is given; a read of an eventfd sets its counter to zero. Callbacks are any functions.
-- A worker runs a task and its callback in one step. Floating-point numbers are any type with the
-- operations that are used.
-- std::sort permutes its list into the order that it is given. JSON documents are read and written by
-- functions that are arguments; stb_image delivers a picture with all its pixels. A task knows its
-- connection by a number.
--
-- Not modelled: the loop around poll with its active channels, the timer functions of EventLoop, the
-- levels of the logger, the buffer of idle connections, and the start of the program. Sockets, threads,
-- image decoding, TensorFlow and TensorRT are calls of other libraries.
pub mod Api
pub mod Base
pub mod Buffer
pub mod Http
pub mod Inference
pub mod Logger
pub mod Main
pub mod Reactor
pub mod Tcp
pub mod Timer
