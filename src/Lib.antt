-- ===== src/Lib.antt =====
-- A model of Interlook, which deploys the services that a provider finds (Docker Swarm, Kubernetes)
-- on a chain of extensions (IPAM, DNS, load balancer).
--
-- The parts. The core (core/) reads the chain from its configuration, a text of names such as
-- "provider.swarm,ipam.ipalloc,lb.f5ltm", and puts the two steps "undeployed" and "deployed" around
-- it. It keeps a table of the services; an entry has a state, which is the name of a step, and a wish.
-- Extensions send messages (comm/) to the core. A message is merged into the table, and a goroutine
-- executes the transition of the entry's step: it moves the entry along the chain and sends the
-- message to the next extension, whose answer comes back the same way. A housekeeper looks at every
-- entry from time to time. An extension sends its answers back to the core.
--
-- The files.
--   Prelude, Strconv   shared names; Boolean tests, lists, split and join; decimal numbers
--   Dict, Calls        maps with texts as keys; calls to a system outside, which stop at an error
--   Log, Log/Names     log/logger.go; the parts of a caller's name
--   Loop               the loop of an extension's Start, for any extension, and its answers
--   Comm, Comm/Weights comm/message.go: Message, Service, Target, IsSameThan, SetTargetWeight
--     Weights/Keys, Weights/Counts   the keys read back; the weights as numbers of occurrences
--   Workflow           core/workflow.go: initWorkflow, isLastStep, getTransition, getNextStep
--     Shape, Lookup    the steps as a chain of positions, and what the searches find
--     Next, Travel     getNextStep; there and back, at the ends, from a name that is unknown
--     Ends, Kinds      the last step, transitions, the configuration text; kinds of steps
--     Stops            the extensions that a journey along the chain asks
--   Entry              core/workflow.go: workflowEntry and its methods
--   Execute            core/transition.go: the five transitions, `execute`
--     Steps            where setNextStep takes an entry, and what happens there (`arrive`)
--     Provider, Provisioner, Delete   the transitions, on every kind of entry
--     Overlap          the provisioner's transition a statement at a time, in several goroutines
--       Alone, Skips   one goroutine alone; two answers at once
--   Entries            core/workflow.go: the table, mergeMessage; core/server.go: the listener
--     Table, Run       one message to the table; a run in which each extension asked answers
--     Lifecycle        whole deployments and removals
--     Files, Files/Restart   save and load; what a restart keeps
--   Housekeeper        core/server.go: housekeeper, refreshService
--     Judged, Sweep    what is decided about an entry; a run over the table
--   IpAlloc            provisioner/ipam/ipalloc/ipalloc.go
--     Records, Handle, Answers     the records; one message
--     RoundTrip, Termination, Returns   two messages; the search ends; every message is answered
--     Full             when the search finds no address
--     Book, Spec, Filed   the abstract book of addresses, and what it promises; the file
--     Loop             Start as a whole
--   F5                 provisioner/loadbalancer/f5ltm: settings and objects of the device
--     Helper, Rules    helper.go: names, pools, members; rules of the policies
--     Handlers         f5ltm.go: what each message does, `receive` for one message of Start
--     Convergence, Replies   when a policy needs an update; what is sent back
--     Members, Steady  the members of a pool, read back as targets; a device that is up to date
--     Loop             Start as a whole
--   Consul             provisioner/dns/consul/consul.go
--     Replies, Loop    the answers to one message; Start as a whole
--   Server             core/server.go: initExtensions, messageSender, sendMessageToExtension
--     Extensions, Step the names of the extensions; the program as a system of steps
--     Moves, Handlers, Invariant, Merges, Turns, Restarts   what a step keeps
--     Safety, Late     what holds in every reachable state; an answer that is late
--     Locks            the lock of the table, and the channels of the provider
--       Owners         who holds the lock
--       Deadlock, Race when nobody can go on; schedules that end badly
--     Start, Api       initServer and the end of run; core/api.go
--     Shutdown, Shutdown/Phases   the signals and the wait groups
--   Kemp               provisioner/loadbalancer/kemplm/kemplm.go
--     Replies, Device  what is sent back; an add against a device that does what it is asked
--     Loop             Start as a whole
--   Kubernetes         provider/kubernetes/kubernetes.go
--     Replies, Loop    what a poll and a refresh send; Start as a whole
--   Swarm              provider/swarm/swarm.go
--     Replies, Loop    what a poll and a refresh send; Start as a whole
--   Config             config/config.go
--   Tests              concrete inputs
--
-- State and operations. A Go method that mutates an object is a function that returns the new record.
-- The table is a map of names to pointers into a list of entries (`heap`). `execute` returns the new
-- entry and the messages sent, `panic` for a method call on a nil transition, or `out_of_fuel`. Time
-- is a natural number, 0 for the zero time, and `now` is the reading of the clock. Numbers of 32 and
-- 64 bits have their wrap-around written out where the code can reach it.
--
-- Parameters. The order in which Go ranges over the map of SetTargetWeight is the parameter `order`.
-- The extensions that answer the core are a function `answer` of the message. The client of the F5
-- device is a record `F5Cli` of operations on a state of the device, and that of Consul a record
-- `ConsulCli`; so are those of Docker (`DockerCli`), of Kubernetes (`KubeCli`) and of HTTP
-- (`HttpClient`), and the file of the table (`Disk`). `to_lower` is strings.ToLower.
-- The functions that make a client are parameters beside it, as are the reading of the configuration
-- file, the encoder of the API (`Encoder`) and the parts of the logging library that Init needs.
-- `returns` says whether Start of an extension returns once it is stopped, and `tag` is what the
-- listener of the provider does to a message. `writes` and `reads` say whether the file of the
-- allocator can be written and read.
--
-- Fuel. `get_next_step` runs on fuel, and its caller gives it the number of steps, which is enough.
-- `execute` runs on the depth of the nested calls: three are enough for a message of a provider and
-- two for an answer, but for the delete message that the results below say never ends. `serve` runs
-- on the number of answers: as many as there are names is enough. The search of the allocator for
-- a free address runs on the number of addresses looked at: 2^32 + 1 are enough in a network of at
-- least one bit.
--
-- Interleaving. In Server/Step a goroutine runs as one step at any time after its start, as do a
-- turn of a listener, of the housekeeper and of the sender; a restart saves and loads the table and
-- loses the goroutines and the messages. In Server/Locks the housekeeper, the loop of the provider
-- and its listener go a statement at a time, with the lock that the first and the last take and the
-- channels without a buffer, on which a send and its receipt are one step; the other goroutines are
-- left out there. In Server/Shutdown each statement of the handler of the signals is a step, as is
-- what the housekeeper and the listeners do that holds up the shutdown. In
-- Execute/Overlap the goroutines of a provisioner's transition on one entry go a statement at a time,
-- a method of the entry being one statement; those of a provider's are not taken apart. In
-- Entries/Run each goroutine runs at once. In Loop an extension handles an event to its end before it takes the next one.
--
-- Not modelled: the command line, the sockets of the API, the start of the goroutines in `run`, and
-- the generator of the reference configuration (gen.go). The allocator is modelled for networks whose
-- text has no colon: `add_service` has no result for others, such as IPv6 networks. An error text of the standard library is left
-- out where it has no bearing.
pub mod Prelude
pub mod Strconv
pub mod Dict
pub mod Calls
pub mod Log
pub mod Comm
pub mod Loop
pub mod Workflow
pub mod Entry
pub mod Execute
pub mod Entries
pub mod Housekeeper
pub mod IpAlloc
pub mod F5
pub mod Consul
pub mod Server
pub mod Kemp
pub mod Kubernetes
pub mod Swarm
pub mod Config
pub mod Tests
