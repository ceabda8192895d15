-- ===== src/Lib.antt =====
-- The MySQL governor: a daemon that limits what each hosting account may take of the processor and
-- the disk in a MySQL server.
--
-- A patched server sends the governor the resources that each query used; the governor keeps rings
-- of the last samples of every user, averages them over three intervals, compares the account's
-- values with its limits, and freezes and unfreezes the account's users by commands to the server.
--
-- The files, and the code that each models (paths from the repository's root):
-- - Base and its children: Boolean tests, lists, signed integers, byte strings, hash tables and
--   floating point, that the components share.
-- - Data: src/data.h, src/governor_config.h, the structures and enumerations.
-- - Fifo: src/fifo_stats.c and the sums of src/stats.c. Inv is the representation invariant,
--   Recent the view as a list of samples, Average the sums and means.
-- - Account: src/stats.h, and the state that the restriction code writes.
-- - Overlimit: the tests of src/calc_stats.c against the limits, and config_get_account_limit of
--   src/governor_config.c. Violation is the tests as a search, and
--   First a description of them in terms of the order of numbers.
-- - LogDecoder: src/log-decoder.c.
-- - Commands: account_restrict and account_unrestrict of src/commands.c. Queue is what they leave
--   in the command queue, Replay what the queue makes of the frozen users. Send is the thread that
--   sends the queue; Delivery is what it makes of the shared list, Cycle the interleavings of the
--   two threads, in which the copying of the queue is one step.
-- - Xml: src/xml.c, the searches in a parsed file and the removal of an element; Search and Removal
--   are about them.
-- - Config: src/governor_config.c. Period, Modes and Limits are its parts, Children the loops over
--   elements, Result the ways in which the reading ends early, Init the reading as a whole. Below
--   Limits and Init, Users, Written, Inherited, Own, WorkUser, Sound, Defaults, Reading and Accounts are about the
--   limits of accounts and the configuration that a file gives.
-- - BadList: src/shared_memory.c, the shared list of restricted users. Listed is the view as a list
--   of entries, Ops sequences of operations, Distinct who is on it, Reader the loop of the readers over the semaphore.
-- - TidTable: src/tid_table.c, the table of the server's threads; Entries is about one thread's entry.
--   Which entries g_hash_table_foreach visits when the callback removes some is GLib's and an argument.
-- - UserMap: the look-ups of src/dbuser_map.c; Reading is the reading of its file, Words and RoundTrip
--   are about it.
-- - Users: src/stats.c and src/user_account.c, the tables
--   of users and accounts; Sample is about one sample of a user's ring.
-- - Counters: the growth of the users' counters, of src/tid_table.c and src/calc_stats.c.
-- - Server: src/governor_server.c, the messages of the server's threads and the loop over the
--   descriptors. Messages is about the two messages of a query, Receive and Loop about the loops.
--   Watch is the check of the threads between messages, with the list of bad threads of
--   src/tid_table.c, and Watched is about it.
-- - Pass: proceed_accounts of src/calc_stats.c, one pass of the governor over the tables. Values and
--   Sampled are about its traversals, Once about what the rings take in a pass.
-- - Restrict: check_restrict, check_restrict_limit, account_analyze and account_analyze_limit of
--   src/calc_stats.c with their helpers. Level, Check and Statistics are about one check, LimitMode
--   and PeriodMode about passes over an account in the two modes. Dbctl is what the daemon does for
--   the command line tool.
-- - Fixtures and the modules named Tests: concrete data, runs, and the theorems at concrete data.
--
-- Names are those of the source in lower case with underscores; a helper that has no name in the
-- source has a comment that says which lines it stands for. C structures are records that are
-- copied, pointers that may be NULL are Option, and a fault (an access out of bounds, a division of
-- integers by 0) is none. Signed integers are unbounded; the conversion of an unsigned
-- configuration value to int is written out. Doubles are an instance argument, with any operations
-- where a theorem has no hypothesis on them. time () is a function of the number of its calls.
-- Every loop is structural recursion over a list or over the number of rounds that the loop has,
-- except three. That of a reader of the shared list runs on fuel 396, which is four openings of the
-- semaphore with 99 tries each, after which the loop gives up; that of recv_wrapper on fuel 100, the
-- number of its calls of recv; and that over the descriptors on the number of descriptors and events
-- that are left, of which every round takes one. A pass leaves out the tables of
-- statistics that AddDbGovStatitrics fills.
--
-- A parsed file is a tree of named elements, and what libxml2 answers for the value of an attribute
-- is data of the tree. The conversion of text to double, stat and dlopen are a parameter of the
-- reading.
--
-- Not modelled: the creation of sockets, threads and log files, the parsing of XML, the plugin of the server, and the command
-- line tools.
pub mod Base
pub mod Data
pub mod Fifo
pub mod Account
pub mod Overlimit
pub mod LogDecoder
pub mod Commands
pub mod Restrict
pub mod Xml
pub mod Config
pub mod BadList
pub mod UserMap
pub mod TidTable
pub mod Users
pub mod Counters
pub mod Server
pub mod Pass
mod Fixtures
