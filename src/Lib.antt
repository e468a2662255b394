-- ===== src/Lib.antt =====
-- A model of TPST, a publish/subscribe server for scientific workflows.
--
-- Parts. A server process keeps tables of subscriptions (src/server/pubsub.cc, pubsub.h): for each
-- event the index events that lead to clients, for each index event its clients, each with a heap
-- object that holds what it requires and what has been published. The handlers of the service
-- (src/server/workflowserver.cc) subscribe and publish in these tables, start tasks that push
-- notifications into a queue, and send requests to other servers. A coordinator records how many
-- subscriptions each server has and plans how to move them (src/utils/coordinator). The metadata
-- server (src/metadatamanagement/metaserver.cc) is a process of its own.
--
-- Servers find one another through directories that hold their addresses (src/utils/groupManager), in
-- which a lock file (src/utils/dlm) is to keep them apart, and an event's directory is computed from
-- its text (src/utils/dht). The task managers (src/observer) are a publish/subscribe system within
-- one process, which starts the action functions of tasks that were loaded from files.
--
-- Files. Operations keep the names of the functions, in snake case.
--   Prelude   numbers, integers, bytes and results; StdMap: std::map and std::set as sorted lists
--   Utils     split (src/utils/split/split.cc), the parsers of src/utils/strparse/strparse.cpp, and
--             std::stoi and std::to_string with their 32-bit range
--   PubSub    State: the tables, with a heap of wrappers by address. Event: ParseEvent. Subscribe:
--             addNewClient, deleteClient, eventUnSubscribe. Trigger: checkIfTriggure. Grid:
--             checkIfTriggureMetaGrid. Publish: pubsubPublish, a function for each of its loops.
--             Invariant: what the tables satisfy between calls
--   Coordinator   Status: eventRecordMap and getAverage; Plan: generatePlanForEvent
--   Server    State: the tables of a process and its queues. Notify: startNotify, checkNotify. Drain:
--             getElementFromNotifyQ. Redistribute: RedistributeSub, RedistributeByPlan. Handlers:
--             Publish, Subscribe, RecordSub and the broadcasts. Network: the servers together, each
--             request with its handler and those that it sends.
--             Overload: checkOverload, UpdateCluster. Start: startTask, notifyback. Threads: handlers
--             that publish to one client at the same time, as steps
--   Rpc       what a client sees of a call
--   PublishClient src/publishclient/pubsubclient.cc, and the trigger files of
--             src/observer/eventmanager.cpp. Stub: the methods of GreeterClient, eventPublish and
--             eventSubscribe
--   TaskManager   src/observer/taskmanager.cpp. Register: registerEvent. Create: Task_create and the
--             registration of functions. Delete: deleteTmfromES. Notify: notifyTmList, callNotify,
--             startFirstAction and the filters. Parse: TaskFileParsing
--   Dlm       getLock and releaseLock (src/utils/dlm/dlm.cc) as steps of processes
--   GroupManager  src/utils/groupManager/groupManager.cpp and src/utils/dht/dht.cc. Place: roles and
--             clusters. Address: parseIP, parsePort. Pool: getFreeNodeList
--   GetIp     src/utils/getip/getip.cpp. Config: the file ./ipconfig. Registry: the cluster directories.
--             LoadData: src/utils/file/loaddata.cpp
--   Operator  src/operator/operator.cc, the handler of src/operator/notifyserver.cc, and localTaskStart
--             of src/runtime/local.cc
--   ThreadPool    src/utils/threadpool/ThreadPool.h: what a thread does under the mutex is a step, and a
--             list of steps an interleaving
--   Meta      the handlers of the metadata server; MetaClient its client,
--             src/metadatamanagement/metaclient.cc
--   Tests     the model on concrete inputs
--
-- Errors. A call that would leave C++'s defined behaviour, or throw, is an `err` with its kind:
-- std::stoi and substr throw, an index or an iterator past the end, a dangling pointer,
-- a division by zero. `check_notify` gets what the compiled function does when it runs off its end, as
-- `checkNotify`, which returns a pointer, does once it has notified; the action functions of tasks and
-- the two functions that call them without a `return` are taken to return.
--
-- Fuel. `split_loop` and `str_split_loop` get one unit for each byte of the text, since a round takes
-- at least one; `plan_loop` gets two for each server and one more, since each round moves one of
-- its two indices. `notify` gets the depth of the recursion: more than the rank of the event is
-- enough where each subscriber publishes an event of lower rank. `deliver` gets the length of the chain
-- of requests, of which three are enough. `read_lines` gets one unit for each byte of the file, since a
-- line has at least one. `create_dir` gets the number of tries:
-- the code goes on for ever while `mkdir` fails and the path cannot be read.
--
-- Not modelled. Counters are unbounded where the code has `int`; the state that an exception
-- leaves; handlers that run at the same time but for those of Server/Threads, one event and one
-- client each (elsewhere the tasks of the pool are run one after the other, each whole); messages
-- and clocks (the clock's value is an argument). `double` and `std::sort` are parameters, as are
-- the replies of other servers, the file system with the addresses that directories hold, the
-- lock file's system calls, the JSON files' members and the functions that the loader finds.
-- Action functions are taken to leave the event store alone. Ranks and group sizes are unbounded.
-- What `sbatch` prints and what `rand` returns are arguments. The subject is left out; sockets,
-- `main` of each program and printing are not part of the model.
pub mod Prelude
pub mod StdMap
pub mod Utils
pub mod PubSub
pub mod Coordinator
pub mod Meta
pub mod MetaClient
pub mod Rpc
pub mod Server
pub mod Dlm
pub mod GetIp
pub mod LoadData
pub mod GroupManager
pub mod PublishClient
pub mod Operator
pub mod TaskManager
pub mod ThreadPool
pub mod Tests
