-- ===== src/Lib.antt =====
-- Minotaur is a Go framework for game servers. This library models the parts that carry its own
-- logic and proves what makes them correct.
--
-- Parts of the program, and the files that model them:
--
-- - utils/buffer (toolkit/buffer is the same text): the growing ring (`Buffer/Ring`), the unbounded
--   buffer over it with its goroutine (`Buffer/RingUnbounded`), and the one with a backlog
--   (`Buffer/Backlog`).
-- - game/task: `Task`.
-- - server/internal/dispatcher: the operations of a dispatcher (`Dispatcher`), the steps of the
--   goroutines (`Dispatcher/Steps`), its count (`Dispatcher/Account`, `Tally`, `Count`), its end
--   (`Dispatcher/Kept`, `Ends`, `Evicting`, `Drain`, `Fair`) and the plans of eviction of an idle
--   one (`Dispatcher/Expel`). Its buffer is the unbounded ring buffer, seen as a queue.
-- - server/gateway: the packets (`Gateway`) and their round trips (`Gateway/Codec`, `Accepted`),
--   the endpoints (`Gateway/Routes`) and what is handed out of them (`Gateway/Bound`).
-- - server/lockstep: the operations (`Lockstep`, `Lockstep/Broadcast`), the steps of the goroutines
--   (`Lockstep/Events`), the cache of frames (`Lockstep/Cache`, `Agree`) and what clients are sent
--   (`Lockstep/Shared`).
-- - game/space: rooms (`Space`), their seats (`Space/Seat`, `Space/Seating`), what holds of a room
--   whatever is called (`Space/Calls`, `Kept`, `Room`, `Over`), the manager of rooms
--   (`Space/Manager`) and what has no effect (`Space/Ignored`).
-- - utils/collection: the tests on slices and maps (`Collection/Contains`), the removal of
--   duplicates (`Collection/Duplicate`), searches (`Collection/Find`), filters
--   (`Collection/Filter`) and the loops they share (`Collection/Loops`).
-- - utils/collection/listings: the slice in the order of priorities (`PrioritySlice`), its order
--   and the neighbours of its items (`PrioritySlice/Linked`, `Calls`), and `Set`
--   (`PrioritySlice/Unlinked`); the paged slice (`PagedSlice`) and what can be put into it
--   (`PagedSlice/Empty`).
-- - utils/collection/mappings: the map behind a lock (`SyncMap`).
-- - utils/sorts: Topological (`Topological`): its nodes (`Topological/Build`, `Graph`, `Items`,
--   `Count`), the visits (`Topological/Visit`, `Ends`), the order (`Topological/Order`, `Ranked`)
--   and the result (`Topological/Sorts`).
-- - utils/chrono: the state line (`StateLine`), its three slices as one list (`StateLine/Entries`,
--   `Adds`, `Runs`), the order of the list (`StateLine/Sorted`, `Distinct`, `Line`) and what is
--   read of it (`StateLine/ByTime`, `ByState`, `Checks`).
-- - toolkit/nexus: the queue of a broker and the steps of its goroutines (`Nexus`,
--   `Nexus/Publish`), what is on the way (`Nexus/Topics`, `Flow`, `Runs`), what the finisher is
--   told (`Nexus/Last`), and Close (`Nexus/Late`, `Races`). Its buffer is the ring, seen as a
--   queue.
-- - utils/leaderboard: the searches of the leaderboard (`Leaderboard`), its methods
--   (`Leaderboard/Board`), the rank (`Leaderboard/Rank`), the place of a score
--   (`Leaderboard/Round`, `Place`, `Insert`) and what a new competitor keeps (`Leaderboard/Enter`,
--   `Leaderboard/Keep`). It holds its scores in a synchronised map, and shares the map's entries.
--
-- How the state corresponds: a Go struct is a record with the fields' names in snake case, a method
-- is a function of the method's name that returns the new record beside its results. A run-time
-- panic is the outcome `panic` of `Base/Panics`. An `error` result is an `Option` of a data type of
-- errors, or a sum of a value and an error. A call that reads the clock takes the time as an
-- argument. Code that runs in several goroutines is a step function over a sequence of events; a
-- step is what one thread does under one holding of its locks. The exceptions are named in the files:
-- JoinClientWithFrame of the lockstep holds two locks in turn and is one step, ChangePassword of a
-- room takes no lock, RemoveEntity of a room takes that of the readers, and the goroutine of the
-- dispatcher closes its buffer in one step.
--
-- Numbers are natural numbers where the code never makes them negative, and `int64` arithmetic of the
-- dispatcher, the lockstep and tasks is wrapped at 2^64 (`Base/Int`). The zero value of a type
-- parameter is an argument.
--
-- Loops are recursions on the slice they read, or on the number of rounds that are left. The binary
-- searches of the leaderboard run on fuel, one more than the length of the list, since every round
-- shortens a range that is at first the list. A visit of Topological runs on fuel, one more than
-- the number of nodes, since each visit within a visit marks a node that no other has marked.
--
-- Not modelled: the network servers, clients and gateways as far as they only move bytes between
-- libraries; logging, files, compression, cryptographic wrappers; code generators and examples. Of
-- the queue of a broker the capacity of its channel, two calls of Run at a time and what the handlers
-- of events do are not; of the dispatcher a second call of Start is not. A time of the state line is
-- a number of nanoseconds of any size, and so is a count of the queue of a broker.
pub mod Base
pub mod Buffer
pub mod Collection
pub mod Dispatcher
pub mod Gateway
pub mod Leaderboard
pub mod Lockstep
pub mod Nexus
pub mod PagedSlice
pub mod PrioritySlice
pub mod Space
pub mod StateLine
pub mod SyncMap
pub mod Task
pub mod Topological
