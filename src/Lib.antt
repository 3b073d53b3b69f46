-- ===== src/Lib.antt =====
-- mod_MP: an Apache module that indexes and serves media files. This library models its core in
-- src/ and states what makes it correct.
--
-- A request enters through mp_fixups and mp_handler of src/web_server/apache_httpd/mod_mp.c
-- (Server.antt). The handler splits the URI (src/input.c, Input.antt), finds the indexer that the
-- URI names (src/indexers/, Indexers.antt), and sends what the indexer or the table of messages
-- gives (src/output.c, Output.antt). Server.antt also has the start of the module, mod_mp_init of
-- src/libmod_mp.c, and the fork of Apache's processes. The table of messages
-- (src/error_messages.c, ErrorMessages.antt) lies in shared memory (src/util_shmem.c,
-- SharedMemory.antt) and is printed as JSON (src/util_json.c, Json.antt). The queue of decoding
-- jobs (src/indexers/music/decoding_queue.c, DecodingQueue.antt) lies in shared memory of its own.
-- QueryParameters.antt has the conditions of an SQL query (src/database/db_query_parameters.c), and
-- Database.antt its connections and results (src/database/).
-- TagReader.antt has the walk that collects the files of a directory and their types
-- (src/indexers/music/tag_reader.c), and Codecs.antt what the readers of tags and the decoders
-- of src/indexers/music/codecs/ do around their libraries: Codecs.Id3 and Codecs.Mp3 are
-- mp3/mpg123.c, Codecs.Vorbis is flac/tag_reader.c, Codecs.Flac is flac/flac.c, and Codecs.Ogg
-- is the loops of ogg/ogg_encode.c. DirSync.antt puts the walk and the readers together into the
-- thread that fills the database, with its start and its status page
-- (src/indexers/music/dir_sync/dir_sync.c). Music.antt turns the words of a URI into the
-- parameters of a query (src/indexers/music/music_query.c), Music.Answer runs it and gives the
-- answer (the same file, and pull_song.c beside it), and Music.Start starts the indexer, which
-- nothing registers.
-- Definitions keep the names of the C functions. The modules below a component hold its proofs,
-- Base holds shared helpers, and Examples the tests.
--
-- The Apache Portable Runtime is a parameter: Apr.antt declares the calls that the program makes,
-- and AprLaws the documented behaviour that theorems may assume. Examples.Platform has a concrete
-- instance. What the operating system answers (statuses of system calls, the contents of an old
-- segment of shared memory, process numbers) is an argument of the operations. Pools are not
-- modelled: an allocation succeeds.
--
-- A C string is the list of its bytes before the NUL; a pointer that may be NULL is an Option. An
-- `int` that can be negative is an integer, and a counter that cannot is a natural number. A
-- 64-bit set of slots is a list of its bits, the first slot first, and its operations keep the
-- length. Where the code reads or writes outside an object, or through NULL, the operation gives
-- the outer `none`. Output parameters are further results.
--
-- Loops are recursion on the rounds left: the length of the string for the loops over strings, 65
-- rounds for the loop over the set of slots, of which each round clears one, the number of
-- entries for the loops over messages, and one round more than there are comments for the search
-- of a comment. The theorems hold for the calls with these bounds, so the bounds are enough. The
-- loop that decodes FLAC ends when the decoder does; its fuel is counted by the frames that are
-- still to come.
--
-- The codec libraries are parameters as well: records of the calls that the code makes, and of
-- what is documented about them. A walk, a scan or a list of metadata blocks is the sequence of
-- answers that the code gets. ErrorMessages.Race has error_messages_add as the steps of several
-- processes in any order; everywhere else an operation on shared memory is one step.
--
-- The source does not compile as it stands, and the model is open about the places. mod_mp.c calls
-- output_init_bb with an argument more than it takes and reads `output->filters`, a field that
-- output.h has commented out: Server has the call that output.h declares, and passes the body to
-- the filters of the request. add_error_list, which nothing defines, is a parameter of the queue
-- and of the answer of pull_song.c; print_error_messages is one of the status page.
--
-- A message in the table is its bytes before the NUL, and one of 1024 bytes has none: to print it
-- is a fault. A file that is written over keeps its old end, and a pointer into a pool that was
-- cleared dangles; both are parts of the results.
--
-- Not modelled: the lookups of MusicBrainz, which are calls of a library; the transcoder and the
-- upload filter, whose bodies are commented out; the parts of the database code that are commented
-- out; and the functions that only set up or free what a library keeps.
pub mod Base
pub mod Apr
pub mod Json
pub mod ErrorMessages
pub mod DecodingQueue
pub mod Input
pub mod QueryParameters
pub mod SharedMemory
pub mod Output
pub mod Indexers
pub mod Server
pub mod Examples
pub mod Database
pub mod TagReader
pub mod Codecs
pub mod DirSync
pub mod Music
