-- ===== src/Lib.antt =====
-- nanopb, the Protocol Buffers runtime that MovieDBApp links through Firebase
-- (MovieDBApp/Pods/nanopb): its encoder and its decoder; the base64 codec of Firebase's web sockets;
-- and the paging of the app's list of movies (MovieDBApp/MovieDBApp).
--
-- The parts and their files. All C of the repository is nanopb, the descriptors that its generator
-- wrote, and one base64 codec; the model takes the runtime and the codec, in the configuration of
-- the project: PB_FIELD_32BIT, PB_ENABLE_MALLOC, 64-bit integers, error messages kept, a 64-bit
-- little-endian target (size_t and pointers have 64 bits, uint_fast8_t has eight).
--
-- - Prelude, Prelude/*: names and lemmas on lists, Boolean tests, and bit operations.
-- - Nanopb/Field: pb.h. pb_field_t is the record Field; its type byte is taken apart by pb_atype,
--   pb_htype and pb_ltype, whose values are in Field/Atype, Htype, Ltype and WireType. A pointer is
--   an address in Memory, a function from addresses to bytes; the encoder reads one and the decoder
--   returns another. Offsets that C computes modulo 2 ^ 32 and its signed size offsets are Offset.
-- - Nanopb/Iter: pb_common.c. pb_field_iter_t is the record Iter; each function of the file has its
--   name. The loop of pb_field_iter_find is find_loop, on the length of the descriptor; Iter/Find
--   follows it once round the fields, Iter/Found to a field, and Iter/Counted its count of required
--   fields.
-- - Nanopb/Ostream: pb_ostream_t and pb_write of pb_encode.c. The callback and the state are fields
--   of Ostream; the buffer callback is buf_write on the cells of a Buffer.
-- - Nanopb/Encode: the rest of pb_encode.c. Primitive has varints, fixed words, tags and strings;
--   Scalar the field encoders of PB_ENCODERS; Default pb_check_proto3_default_value; Array
--   encode_array; Basic encode_field with its cases, callbacks and extensions; Message pb_encode,
--   submessages and the entry points. Emits, Values, Submessage, Sized and Whole follow every part
--   of the encoder on a sizing stream and on a buffer; SizingPass draws the conclusions.
-- - Nanopb/Istream: pb_istream_t, pb_read and pb_readbyte of pb_decode.c.
-- - Nanopb/Decode: the primitives of pb_decode.c. Varint and Primitive model them; Encoding,
--   RoundTrip, RoundTrip32 and Fixed read back what Nanopb/Encode writes; Bounds and its children
--   follow the read position on arbitrary buffers; Overlong is about varints beyond ten bytes. Scalar
--   has the field decoders of PB_DECODERS, less submessages, and allocate_field, which store into
--   memory; Inside and InsideBuffer bound what they write, Entries and Arrays what
--   decode_static_field writes of an array, and Stored, Integer and Copies follow an integer through
--   the encoder's load and the decoder's store.
-- - Nanopb/Decode, the rest of pb_decode.c. Action is the monad of the functions that change stream
--   and memory, and the record Env of what they find around them. Static, Pointer and Callback have
--   decode_static_field, decode_pointer_field and decode_callback_field; Extension decode_field and
--   the extensions; Defaults pb_message_set_to_defaults; Release pb_release; Required `fields_seen`
--   and its check; Message pb_decode_noinit with its loop, PB_DECODERS, pb_dec_submessage, pb_decode
--   and its variants. Required/Bits, Marks and Mask follow the bits of `fields_seen`, and
--   Count the number of required fields. Total and its children follow the functions to their end,
--   from single updates of memory up to whole messages.
-- - Base64: fbase64.c (MovieDBApp/Pods/FirebaseDatabase/Firebase/Database/third_party/SocketRocket).
--   Alphabet, Ntop and Pton model it; Digits, Chars and Text have the text by RFC 4648; Bounds and
--   PtonBounds follow the writes to the targets, Steps and Groups the states of f_b64_pton, and
--   RoundTrip the two functions one after the other.
-- - App: the app. Service has the models of MovieDBApp/MovieDBApp/Models and NetworkResponseModels,
--   and what MovieService and UIImage.image make of an answer; DataSource the state and the
--   functions of MoviesViewer/MoviesTableViewDataSource.swift, with the tasks that its MovieService
--   creates; Steps what happens to a data source, as a step relation, and the states that it
--   reaches. Posters, Pages, Fits, Tasks, Wanted, Requests, Idle and Progress follow posters,
--   pages, tasks and requests for posters through the steps.
--
-- How they interact: a C function that returns bool and changes a stream is a function from the
-- stream to a result and the stream. An encoder yields a Status: ok (true), failed (false), crashed
-- (a null function pointer was called) or stuck (the model's bound on nesting was reached). A
-- decoder yields an Outcome: got with what was stored through its pointers, failed, or stuck. The
-- chains `if (!f(...)) return false;` are `>>` and `>>=`. Fields that carry function pointers of
-- the application (callbacks, extension types) go through the record Env of Nanopb/Encode/Basic:
-- what the application supplies is a parameter, and so are the memory and the descriptor tables.
-- pb_realloc is the parameter Realloc of the field decoders; the message decoder has it, pb_free,
-- the descriptor arrays by their addresses and the application's functions in the record Env of
-- Nanopb/Decode/Action. The base64 codec stands alone: its targets are lists of cells, and a target
-- that is NULL is none. The app's service and list are one state, since each list has its own
-- service; Foundation and UIKit are the parameter Platform.
--
-- Bounds and fuel. pb_encode takes `depth`, a bound on the nesting of messages and on a message's
-- extensions: C recurses without a bound, and a run that reaches it is stuck, which is neither
-- success nor failure. The theorems on the encoder hold at every depth and start from an encoding
-- into some buffer that succeeded. varint_groups has ten rounds, one for each seven bits of a
-- uint64_t. In the decoder a loop takes bytes_left + 1 rounds where each takes a byte, and
-- varint_loop takes eleven; the theorems named `...-Ends` say that no run is stuck. The loops of
-- the message decoder take bytes_left rounds of the stream that they read, and pb_decode takes
-- `depth`, the nesting of messages: it is enough where it is above a rank of the message that falls
-- from each message to its submessages. The field `bound` of Env is for default values and
-- releases, which follow the nesting of descriptors, for lists of extensions, and for the calls of
-- one callback.
--
-- Not modelled: the generated descriptor tables, which are data; of the app, table cells, view
-- controllers, the addresses of requests, weak references to a data source that is gone, the
-- database of ratings, and threads that interleave inside a completion handler, which the steps
-- take whole; and the Objective-C and C++ pods, of which leveldb is a copy of another project.
pub mod Prelude
pub mod Nanopb
pub mod Base64
pub mod App
