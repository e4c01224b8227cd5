-- ===== src/Lib.antt =====
-- The verification library of simple, a C++20 coroutine framework for game servers (runtime/) and
-- the servers that use it (gobang/). It models parts of the runtime and proves what they promise.
--
-- Prelude: the shared names, lists over the native numbers, and raw memory (Prelude/Memory).
--
-- Shm: runtime/src/shm. Two processes share a ring of bytes and pass messages over it.
--   Shm/Buffer is shm_buffer.cpp: a record of the shared counters, the indices and the bytes, and one
--   function for each method. `write_len` and `read_len` are the overloads write(size_t) and
--   read(size_t). A size_t is a number below 2 ^ 64 and the counters wrap; index + offset is not
--   wrapped, since a valid ring is smaller than 2 ^ 64 and no caller passes an offset beyond it.
--   Shm/Channel is shm_channel.cpp: try_write and try_read on a pair of rings, and the coroutines
--   write and read cut at each co_await of shm_channel_select::wait; `write_round` and `read_round`
--   run from one such point to the next. The length of a message is stored little-endian, as on the
--   machines that the build targets. Shm/Channel/Link lets the two processes interleave; the loads
--   and stores of one call are taken in program order, and a publish (index and counter) as one step.
--
-- Containers: runtime/src/containers. Containers/TimerQueue is time_queue.cpp, a binary heap in a
--   vector whose timers know their slot. The loops of up_heap and down_heap run on fuel: the index
--   falls or grows in each round, so the index and the number of slots behind it are enough, and
--   get_ready_timers takes a timer off in each round. Times are integers without a bound.
--   Containers/Buffer is buffer and memory_buffer of buffer.hpp, bytes between two positions; `skip` is
--   read(size_t), and what newly allocated memory holds is an argument.
--
-- Crypt: runtime/src/utils/crypt.cpp. Crypt/Base64 is the base64 part, on lists of bytes. Crypt/Words
--   has the 32 bit words, Crypt/Blocks what the updates of the two digests share, Crypt/Md5 and
--   Crypt/Sha1 the contexts, whose calls of step are tables of their arguments, and Crypt/Hmac the two
--   keyed codes, beside RFC 2104 in Crypt/Hmac/Keys. The loop over full blocks takes bytes off in each round, so their number is enough.
--
-- Filter: runtime/src/utils/trie_ac.cpp. Filter/Utf8 is the counting of characters, Filter/Trie the
--   automaton and in_trie and replace on it, Filter/Build its construction. A negative state is none,
--   and a node_set the list of its nodes. The loops over the queue of states run on as many rounds as
--   there are states, which each enter it once; those over a text take a byte in each round.
--
-- Coro: runtime/src/coro. Coro/Waiters is the list of awaiters, with its pointers, that mutex_state and
--   condition_variable_state both keep; an awaiter is its address. Coro/Mutex is mutex.cpp and the
--   awaiter of mutex.h, with the coroutines around one mutex as a step relation: `await_lock` is
--   await_suspend, `release` an unlock and its hand-over, `cancel` the callback of a token and
--   `resume` what the scheduler does later. Coro/Condition is condition_variable.cpp and
--   Coro/Cancellation cancellation_state.cpp, where a callback is the list of the registrations it
--   destroys. Their loops take one awaiter or registration off the list in each round, so one round
--   more than the list is long is enough.
--
-- Web: runtime/src/web. Web/Http is http.cpp: RequestLine, ReplyLine and HeaderLine are the line
--   parsers, one turn of the loop at a time; Parser reads headers and body from a socket, which is the
--   list of the bytes that come before it closes; Replies is the printer and its tables. The loop over
--   the headers runs on fuel, and since each line takes two bytes, the bytes left are enough.
--   Versions and statuses are int32_t in the source, where a number beyond 2 ^ 31 is undefined; here
--   they are held as 32 bits and wrap.
--   Web/Websocket is the frame layer of websocket.cpp: `write_message` and `write_split` are the two
--   overloads of write, and `read_message` is read, on a little-endian machine. The key of each frame,
--   which rand_key draws, is an argument. write_split runs on fuel, where a message of n bytes needs
--   n + 1 rounds at most; read runs on as many rounds as bytes are left.
--   Web/Handshake is both functions handshake: what each side sends and how it ends on the bytes it
--   receives. An exception is one of the failures, and what was sent before it stays sent.
--
-- Not modelled: sockets, the log system, the loading of services, the coroutine machinery and the
--   operating system's calls (input, output and the compiler's or the system's work); the game servers
--   of gobang/ and their generated messages; the heap and the queues, which are copies of other
--   libraries; scoped_lock and unique_lock, which call the lock and unlock that are modelled.
pub mod Prelude
pub mod Shm
pub mod Containers
pub mod Crypt
pub mod Filter
pub mod Coro
pub mod Web
