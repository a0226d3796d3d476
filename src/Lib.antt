-- ===== src/Lib.antt =====
-- marko, a C++ library of header files for messages over datagram sockets (cpp/src/marko).
--
-- The parts. `class Socket` holds a file descriptor. `SocketUDP` and `SocketUnix` derive from it and
-- send and receive datagrams; `SocketBC` derives from `SocketUDP` and broadcasts. The templates
-- `Publisher`, `Subscriber`, `Request` and `Reply` take one of the two classes as their base and
-- call its methods. `get_hostname`, `get_host_ip` and `class SocketInfo` ask the system about the
-- host and about a descriptor.
--
-- Which file models which part:
-- - System.antt: what the code calls and does not define, as the record `System`: the system
--   calls, the constants of the system's headers, the console, and the header socket_defs.hpp, which
--   comes from a git submodule. A call takes the world and returns its result with the next world.
--   System/Laws.antt has the documented behaviour that theorems rely on, System/Trace.antt a system
--   that notes down its calls, System/Loopback.antt a concrete machine that meets the laws.
-- - Time.antt: cpp/src/marko/time.hpp.
-- - Socket.antt: cpp/src/marko/socket.hpp, as far as it is not commented out. An object is a record
--   with its descriptor; a method takes it and the world.
-- - Datagram.antt: cpp/src/marko/socket_udp.hpp (Udp.antt), socket_uds.hpp (Unix.antt) and
--   socket_bc.hpp (Broadcast.antt). Datagram/Class.antt has the interface `SocketClass` that the
--   templates use of their base; Datagram/Network.antt says what a network that delivers is, and
--   Datagram/SetUp.antt what a system that makes and binds sockets does.
-- - PubSub.antt: cpp/src/marko/pub_sub.hpp. `publish_each` and `once_each` are the loops of
--   cpp/examples/ps.cpp and cpp/gtests/test_ps.cpp; PubSub/Interleaving.antt has the calls of
--   several threads in any order, as a step relation, PubSub/Topic.antt the abstract topic that
--   they implement, and PubSub/Subscribers.antt a publisher with many addresses.
-- - RequestReply.antt: cpp/src/marko/request_reply.hpp. A `Reply` without a callback gives the
--   outcome `bad_function_call`. `exchange` is `Request::request` with a `once` of the other thread
--   between its two calls; `exchange_each` is the loop of cpp/gtests/test_rr.cpp.
--   RequestReply/Several.antt has the calls of several requesters in any order, as a step relation;
--   Several/Remote.antt has the function with late results that they implement for each requester,
--   Several/Settled.antt has what is left to do after any such run, and Several/Late.antt a requester
--   with the answer to an earlier request. RequestReply/Sizes.antt is about all callbacks.
--   RequestReply/Threads.antt and PubSub/Threads.antt have the whole functions of the threads.
-- - Info.antt: cpp/src/marko/info.hpp: Host.antt has the two functions, Options.antt the tables and
--   Report.antt the methods of `SocketInfo`; Printed.antt is about the whole report.
-- - Examples.antt: the programs of cpp/examples. Examples/Simple.antt is simple.cpp, which uses the
--   system calls alone; Regex.antt is regex.cpp, with what it uses of `std::regex` in
--   Regex/Matching.antt; Rr.antt, Ps.antt and
--   Msg.antt are rr.cpp, ps.cpp and msg.cpp, with `pack`, `unpack` and `double` as parameters
--   (Structs.antt). `converse` is the loop of rr.cpp's `request` with a `once` of the other program
--   between the two calls of each `Request::request`. Examples/Closing.antt is about the descriptors
--   that ps.cpp and rr.cpp leave open.
-- - Gtests.antt: the tests of cpp/gtests that use the library, test_rr.cpp (Gtests/Requests.antt)
--   and test_ps.cpp (Gtests/Topics.antt), each from its set-up to the end of its threads, with
--   `EXPECT_EQ`, `pack` and `unpack` as parameters. `ask_each` is the loop of `req_thread`,
--   `start` and `start_udp` are the threads up to their loops. Gtests/Topics/AnyOrder.antt has
--   the rounds of the two loops of test_ps.cpp in any order, from the end of the set-up on;
--   Gtests/SetUp.antt has the set-up that the tests share, and the two Whole.antt have the tests
--   from their first call. Gtests/Requests/AnyOrder.antt has the calls of the loops of
--   test_rr.cpp's two threads in any order, from the end of their set-up on, Turns.antt that they
--   take turns, and Interleaved.antt the tests so.
-- - Base.antt: tests, integers, lists, decimal texts and state passing. Tests.antt: runs on the
--   machine of System/Loopback.antt.
--
-- Names are those of the code in lower case with underscores (`availableForWrite` is
-- `available_for_write`). The constructors are `make`, `new`, `new_bc` and so on, and the destructor
-- is `close`. A message is a list of bytes. `long` has 64 bits. The result `none` of
-- `available`, `available_for_write`, `get_hostname` and `lifetime` is undefined behaviour of the
-- code, or in `lifetime` a call of a method that the class does not have.
-- A call of the system, one that receives included, returns with what the system answers: in `once`,
-- `request` and the threads' functions, such as `rep_thread`, how long it waits, and that it may wait
-- for ever, is not in the model; in the step relations it is a step only where a datagram waits.
-- What an uninitialised local variable holds is an argument.
--
-- Bounds and fuel: the only functions on fuel write a number in decimal digits (Base/Decimal.antt,
-- Examples/Regex/Numbers.antt). Their fuel is the number and one more, and each step divides by
-- ten. All other recursion is on a list, on a pattern or on a loop's count.
--
-- Not modelled: time, and calls that never return; threads but for the order of calls in
-- `exchange`, `pub_sub`, Gtests/Topics/AnyOrder.antt, Gtests/Requests/AnyOrder.antt,
-- PubSub/Interleaving.antt and RequestReply/Several.antt; callbacks that throw or that register
-- others; an error of the console; the contents of socket_defs.hpp (addresses from texts, pack
-- and unpack); the commented-out code, which is most of socket.hpp and all of dev.cpp and bc.cpp
-- but a `main` that returns 0; the rest of `std::regex`; the Python package.
pub mod Base
pub mod System
pub mod Time
pub mod Socket
pub mod Datagram
pub mod PubSub
pub mod RequestReply
pub mod Info
pub mod Examples
pub mod Gtests
pub mod Tests
