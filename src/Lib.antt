-- ===== src/Lib.antt =====
-- libstreamlike: one interface for streams of bytes, and its implementations.
--
-- The program's parts and how they interact
--   src/streamlike.h defines `streamlike_t`, a record of callbacks that may be NULL, and wrappers that call
--   them. src/streamlike/file.c fills the record over a `FILE`, src/streamlike/http.c over a transfer
--   of cURL, and src/streamlike/buffer.c over another stream that a thread reads ahead of the consumer
--   into the circular buffer of src/streamlike/util/circbuf.c. The C++ classes of src/streamlikexx.cpp and
--   beside it hold a stream each, whose C functions they call.
--
-- Which file models which part
--   Common and its children: the names shared by all, Boolean tests, `size_t` sums and differences that
--     wrap at 2 ^ 64, signed integers, and the chaining of code that may fault.
--   Memory: blocks as `malloc` returns them, and `memcpy`, which faults outside of its blocks.
--   Stream: `streamlike_t` and the `sl_` wrappers; a call of a NULL callback faults.
--   Circbuf: `circbuf_t` and the functions that only look at it or close an end.
--     Circbuf/State: the queue of bytes that the offsets stand for, and the invariant of a buffer.
--     Circbuf/Read: `read_some_`, `circbuf_read_some`, `circbuf_input_some` and
--       `circbuf_dispose_some`, which pass the source's pointers as a block and an offset.
--     Circbuf/Write: `write_some_` and `circbuf_write_some`.
--     Circbuf/Feed: `write_some2_` and `circbuf_write_some2`, with the callback as a parameter.
--     Circbuf/Lifecycle: `circbuf_init` and `circbuf_destroy`, on what the allocator and the threads
--       library return.
--     Circbuf/Ops: programs of calls that do not block on one buffer, beside a bounded queue.
--     Circbuf/Threads: `circbuf_read` and `circbuf_write` as programs of two threads, one step for each
--       access to what they share, with the waits and signals of the two conditions, spurious wake-ups,
--       and either end being closed.
--   Buffer: `sl_buffer_t` and the callbacks that only look at it.
--     Buffer/Lifecycle: `sl_buffer_create2`, `sl_buffer_destroy` and `sl_buffer_threaded_fill_buffer`, on
--       what the allocator and the threads library return.
--     Buffer/Threads: `fill_buffer`, with `circbuf_write2` in it, as a program beside that of a consumer
--       that calls `sl_buffer_read_cb` and `sl_buffer_seek_cb`, over an inner stream that is a parameter;
--       `sl_buffer_blocking_fill_buffer` runs that program too. Buffer/Machine has its states.
--     Buffer/Stream: the callbacks that `sl_buffer_create2` stores in the stream.
--     Buffer/Over: a buffered stream whose inner stream is one of src/streamlike/file.c.
--   File: the callbacks of src/streamlike/file.c, and opening and closing; stdio is a parameter.
--   Http: the state behind an HTTP stream and the callbacks that only look at it.
--     Http/Body: `sl_http_write_cb_`, and a piece of the body over the reads that take it.
--     Http/Transfer: `sl_http_read_cb`, with cURL as a parameter that calls the two callbacks.
--       Http/Transfer/Order: reads one after the other, of a resource that cURL hands over.
--     Http/Seek: `sl_http_seek_cb` and `sl_cancel_transfer_`, over the same parameter.
--     Http/Session: opening, creating, closing and destroying an HTTP stream.
--     Http/Library: `sl_http_library_init` and `sl_http_library_cleanup`, as programs of threads, one step for
--       each access to what they share.
--     Http/Header: `sl_http_header_cb_`, `memtrim` and `memcasestartswith`.
--   Wrapper: the class `Streamlike` of src/streamlikexx.cpp, on the pointer `self`.
--     Wrapper/Owner: which object of src/streamlike/filexx.cpp or src/streamlike/httpxx.cpp owns which
--       stream, over constructing, moving, assigning and destructing.
--     Wrapper/Buffers: the same for objects of src/streamlike/buffer.hpp, each over an object of the former.
--
-- Bounds and conventions
--   A byte is a number, and a size is a number below 2 ^ 64. No block is larger than `PTRDIFF_MAX`, as
--   the C library promises, so that the sum of two offsets into a block does not wrap; the models
--   still compute with sums and differences that wrap. `none` is a fault: an access outside of a block, or a
--   call of NULL. An `off_t` is an integer without a bound, as no stream has 2 ^ 63 bytes. The loops
--   of `sl_http_read_cb` and `sl_cancel_transfer_` run on fuel, one for each test of their conditions,
--   and return where the fuel exceeds the rounds after which the transfer ends, by two and by one; the
--   other loops run over a count or over a list.
--   In Circbuf/Threads, memory is sequentially consistent, a copy is one step, and so is what a thread does
--   under a lock between two waits. The schedule is a list of steps, and any list is allowed.
--   In Buffer/Threads, a round of `circbuf_read` or of `circbuf_write2`, with its signal, is one step too, as
--   each end moves its own offset alone, and so is a section under `seek_lock` in the midst of which
--   nothing changes that is read without the lock.
--   In Http/Transfer and Http/Seek, cURL is known by what it hands over and by whether its transfer is
--   paused; of a paused transfer nothing is relied on until `curl_easy_pause` has unpaused it.
--   In Wrapper, a function that destroys a stream may fail, and the destructors do not look at its code.
--   The character classes of Http/Header are those of the C locale. What `sscanf` and `strtoull` read is
--   a parameter.
--
-- Not modelled
--   Of the C++ classes, `startReadingThread`, which throws where the C function returns a code, and a
--   `StreamlikeBuffer` over another. src/streamlike/debug.h and src/streamlike/test.h hold macros and
--   test helpers.
pub mod Common
pub mod Memory
pub mod Stream
pub mod Circbuf
pub mod File
pub mod Http
pub mod Buffer
pub mod Wrapper
