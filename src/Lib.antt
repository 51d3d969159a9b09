-- ===== src/Lib.antt =====
-- Verification of iq_tool, a multi-threaded program that resamples, filters and converts I/Q sample
-- streams (src/ and include/ of the repository).
--
-- An input module (a file or a radio) fills chunks of samples, or, for a radio whose driver has its
-- own thread, a byte ring that a reader thread empties packet by packet. The chunks pass from stage
-- to stage by queues of pointers, and the writer thread empties a second byte ring into the output.
-- What is set up at the start comes from one arena, the samples of the chunks from one block. The
-- files:
--
-- Prelude: shared names, tests on numbers, C arrays as lists (`copy_at` is memcpy), size_t
--   arithmetic with its wrap-around at 2 ^ 64, and windows of cyclic arrays.
-- RingBuffer: src/ring_buffer.c. Fifo is the abstract bounded FIFO of bytes; Validity the
--   representation invariant; Contents, Store and Fetch relate the block to the bytes held; Refines
--   the refinement; Traces all interleavings of calls; Drain a reader after the end of the stream;
--   Create what creation returns. A call holds the mutex throughout and is one step; a call that
--   would wait on the condition is a step that is not possible yet (`none`).
-- Queue: src/queue.c, in the same way, for pointers.
-- MemoryArena: src/memory_arena.c, with the bytes of the block; a pointer is its distance from the
--   start. Blocks is about one request, Sequences about any list of them.
-- Formats: format_t of include/common_types.h, the table of src/utils.c and get_bytes_per_sample of
--   src/sample_convert.c; strcasecmp is a parameter.
-- SdrPacket: src/sdr_packet_serializer.c. Writing has the writers over the ring; Reading the reader,
--   as the tree of reads that it makes, since other threads may run between two of them; Runs
--   executes such a tree on a ring or on the list of its bytes. The loop that looks for the magic
--   number takes fuel, of which one round more than there are bytes is enough
--   (Resync.read_packet_total).
--
-- Pipeline: the loops of the threads of src/pipeline.c, src/utility_threads.c and
--   src/output_stdout.c, with the calls of src/signal_handler.c, as sequences of accesses to the
--   queues and chunks that the threads share. Calls and Threads have the code; Ownership says what
--   it is to touch only chunks that one holds, Rules and Bodies that the code does; Places and Steps
--   follow the pointers through one access, Runs through any order of the threads' accesses; Files
--   has the readers of src/input_rawfile.c and src/input_wav.c; FileReaders and GivenAway what they
--   touch;
--   Exclusion states it for the threads that pipeline_run starts; Marker is about the end of the
--   stream. The signal processing, libsndfile, and the packet reader as the thread sees it, may leave
--   anything in the chunk that they are given. Pool is the division of the block that holds their
--   buffers.
-- Options: the checks of src/config.c on modes (Modes), what a preset
--   fills in (Presets, Filling), the rate, container and format of the output (Outputs), the chain
--   of filters (FilterChain) and their implementation (FilterChoice, with the test for powers of
--   two in PowersOfTwo).
-- ThreadManager: src/thread_manager.c, and the starting of the threads in pipeline_run.
-- Networking: src/networking.c over an abstract socket: Receiving and Sending have the loops for
--   whole blocks, Users the count of users.
-- SpyServer: src/input_spyserver_client.c. Its threads are trees of the calls that they make, which
--   Running and Consuming execute where no call fails, and AnyOrder with any answers of the calls, so
--   that the other threads may run, and a shutdown may come, between any two of them. Handshake and Greeting are about the first
--   messages, Rates and Configure about the choice of the rate and the settings, Session about the
--   socket library; Producer and Consumer are the two threads, Messages what the server sends,
--   Producing, EndToEnd and Arriving what becomes of it where all goes well, Samples in any order. The loops take fuel: a round of one takes at
--   least a byte or a header, so that as many rounds as bytes or messages are enough.
-- Output: the loop of the writer thread of src/output_raw_file.c and src/output_wav_common.c over an
--   abstract file; Writing says what is in the file at the end. A round takes at least a byte, so that
--   one round more than there are bytes is enough.
-- Text: the texts of C as lists of bytes, trim_whitespace of src/utils.c, and what the program uses
--   of the C library for texts.
-- PresetsLoader: src/presets_loader.c, with its table of keys in Keys. Printing says how presets
--   are written, Reading the lines that fgets makes of a file, Fields, Storing and Lines what one line
--   changes, Loading what a whole file gives,
--   Limits bounds the array.
-- ModuleManager: src/module_manager.c. Lookup is about the search for a name, Options about the
--   options of the command line.
--
-- malloc, the pthread initialisers, the socket calls, strcasecmp, strtod, strtof, strtol and the
-- operations on floats are parameters, with what their documentation says as hypotheses. Not
-- modelled: log messages, NULL arguments (a call has its objects), the freeing of memory, the
-- platform layer, the radio drivers and all arithmetic on floats.
pub mod Prelude
pub mod RingBuffer
pub mod MemoryArena
pub mod Queue
pub mod Pipeline
pub mod Options
pub mod ModuleManager
pub mod Networking
pub mod Output
pub mod PresetsLoader
pub mod SpyServer
pub mod Text
pub mod ThreadManager
pub mod Formats
pub mod SdrPacket
