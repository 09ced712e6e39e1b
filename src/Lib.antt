-- ===== src/Lib.antt =====
-- A model of the Raft core of this repository, which commits and applies log entries out of
-- order.
--
-- A leader appends a task to the ballot box (cpp/ballot_box.cc), which keeps a ballot for each
-- task (cpp/ballot.cc) and hands the task's closure to the closure queue (cpp/closure_queue.cc).
-- When a peer has stored some entries, commit_at grants its votes, also for entries that are not
-- next in order; what is then committed goes to the FSM caller, which takes the closures of these
-- indexes from the closure queue. The log manager (cpp/log_manager.cc) keeps the latest entries
-- in memory, with holes where some are missing, and gives them to the disk thread. The node
-- (cpp/node.cc) runs elections, stores its term and its vote (cpp/raft_meta.cc), and clears the
-- box when it steps down. A follower keeps requests that must wait for other entries in a cache.
-- Configurations are sets of peers (cpp/configuration.h), of which cpp/configuration_manager.cc
-- keeps the history. On the leader a replicator (cpp/replicator.cc) for each follower sends it
-- the entries, one in a request, and gives the ballot box the indexes that it answers for. On
-- the disk, entries go to segment files (cpp/log.cc), of which a storage keeps the list.
--
-- The files, each with the code it models, and below each the modules of its lemmas and theorems:
--   Prelude               the library's names, tests on numbers, lists, equality and integers
--   Ballot                cpp/ballot.h, cpp/ballot.cc: Ballot, init, grant, granted
--   ClosureQueue          cpp/closure_queue.h, cpp/closure_queue.cc: ClosureQueue
--   BallotBox             cpp/ballot_box.h, cpp/ballot_box.cc: BallotBox; Tasks is its abstract view
--   LogEntry              cpp/log_entry.h, protos/enum.proto: LogId with its comparators, LogEntry
--                         Meta is cpp/log_entry.cc, configurations as messages
--   EntryHeader           cpp/log.cc: the header of an entry in a segment file, with its checksums
--   Segment               cpp/log.h, cpp/log.cc: Segment, the file and its arrays of offsets and terms;
--                         Segment/Loading is Segment::load
--   SegmentStorage        cpp/log.h, cpp/log.cc: SegmentLogStorage, the segments in order; Entries and
--                         Shrinking are its operations, Startup is init; Chain to Suffix are lemmas
--                         for Runs, Listing is about the check of the closed files
--   Replicator            cpp/replicator.h, cpp/replicator.cc: Replicator, the sender to one follower;
--                         Sending, Calls and Returned, Control are its requests, responses and
--                         operations; InFly to Responses, Defined and Total are about the calls in
--                         the air, Answers and Commits about what is committed
--   ConfigurationManager  cpp/configuration_manager.h, cpp/configuration_manager.cc
--   Configuration         cpp/configuration.h: PeerId, Configuration
--   LogManager            cpp/log_manager.h, cpp/log_manager.cc: LogManager, the log in memory;
--                         Appending is append_entries, Waiting the waiters for new entries
--   FsmCaller             cpp/fsm_caller.h, cpp/fsm_caller.cc: on_committed and run, the queue of tasks;
--                         Iterator is IteratorImpl with Iterator of cpp/raft.cc, Applying do_committed
--   MetaStorage           cpp/raft_meta.h, cpp/raft_meta.cc: LocalRaftMetaStorage
--   Node                  cpp/node.h, cpp/node.cc: the state, step_down and check_step_down
--   Node/Election         the handlers of votes, elections, timeouts and terms
--   Node/Votes            sequences of these handlers as lists of events; Node/Leaders uses them
--   Node/Cache            cpp/node.h, cpp/node.cc: AppendEntriesCache; Requests, Storing and
--                         Retransmission use it
--   Node/Tasks            cpp/node.cc: apply, check_dependency, execute_applying_tasks; Applied uses it
--   Tests                 runs at concrete inputs
--
-- Functions, fields and constructors have the names of the source. A method of an object takes
-- the object's record and gives the changed one. A deque, a vector or a std::set is a list, a
-- std::set in its order. Reading or popping a deque out of range, which is undefined in C++, is
-- the result `none` of commit_at, pop_closure_until, the log manager, the iterator, the
-- segment, the segments' storage and the replicator, and `undefined` of a loop on fuel; a failed
-- CHECK is logged and the call goes on.
-- Mutexes are not modelled: a method is one step, and a node's handler that lets go of the mutex
-- is two.
--
-- Indexes, terms, times and log positions are numbers from 0; they stay below 2^63, and terms
-- below 2^31, the type of _current_term. The id of a waiter is narrowed to 32 bits, as an int. The
-- counts of a ballot are integers, since they fall below 0. Only Segment::load, whose loop need
-- not end, and the loop of do_committed, whose end depends on the state machine, run on fuel, and
-- the result `running` is that it is used up. All other loops are over lists or over a number of
-- rounds, which is the distance that the C++ loop has to go. A bitset<1024> is a number below
-- 2^1024.
--
-- The type of peers with its equality and order, the type of closures, and the address type
-- butil::EndPoint with the laws of its comparators are parameters; so are the state machine,
-- whether the file of the stored vote can be written, the term of an entry that only the storage
-- has, butil's packing of numbers into bytes, its checksums, and protobuf's message of a
-- configuration. A segment's file is a list of bytes, and a write fails as a whole or not at all.
-- Not modelled: logging, bthread, brpc (a request that the node or a replicator asks for counts
-- as sent), parsing and printing, the disk thread of the log manager, the group of replicators,
-- the FSM caller's calls on leader changes, and the start of a node. A replicator that is locked
-- twice would wait for ever, which is not modelled either; `locked` tells when it is.
-- NodeImpl::handle_append_entries_request is modelled up to where it has accepted the leader.
mod Prelude
pub mod Ballot
pub mod ClosureQueue
pub mod BallotBox
pub mod EntryHeader
pub mod FsmCaller
pub mod LogEntry
pub mod ConfigurationManager
pub mod Configuration
pub mod LogManager
pub mod MetaStorage
pub mod Node
pub mod Replicator
pub mod Segment
pub mod SegmentStorage
mod Tests
