-- ===== src/Lib.antt =====
-- A verification library for ElasticActor, a runtime system for actors on a cluster.
--
-- Actors get messages through lock-free mailboxes and are run by workers, which share the runnable
-- actors by work stealing. The dispatcher brings a message to a module on this node, or to another
-- node; a module chooses the actor and calls the interface of the loaded library, whose return value
-- goes back as a reply. Requests and scatter operations leave a context with the sending actor, which
-- the answer finds by its id. A key-value store is built on top of the runtime.
--
-- The parts, with the code that they are about (paths from the repository's root):
--   Prelude         lists and maps over native numbers, Boolean tests, 32-bit counters
--   Mailbox         include/mola/mailbox.hpp. Mailbox is the class, the list below `chain` the chain of
--                   nodes from m_stack on. enqueue_try, fetch_try, dequeue_try, try_block_try and
--                   close_try are one iteration of the loop with a pointer that was loaded before;
--                   enqueue, dequeue, try_block and close are the calls when nobody interferes.
--                   Mailbox.History runs any number of producers and one owner step by step.
--   WorkSteal       include/mola/work_steal.hpp: the ring of a worker (LockFreeQue), __enqueue, __dequeue,
--                   __grab and __steal; WorkSteal.Strategy has the queues of all workers, the global
--                   queue and the counters m_total_jobs and m_global_jobs.
--   ActorId         include/mola/actor_id.hpp, src/actor_id.cpp
--   Message         include/mola/c/mola_message.h and the headers in include/mola/message.hpp;
--                   Message.Pointers is MessageSafePtr, a heap of counters with the live pointers.
--   Actor           include/mola/actor.hpp: execute, get_message, deliver_message; Actor.ReqCtx has the
--                   request ids and contexts (new_reqid, insert_req_ctx, delete_req_ctx).
--   Module          src/module.cpp: select_or_create_actor_instance, dispatch, invoke_message
--   Dispatcher      src/dispatcher.cpp: dispatch of a message (route), of a request (request_to), of a
--                   scatter group with given targets (scatter_to), and the gather calls
--   Nodes           include/mola/node_manager.hpp, src/node_manager.cpp and the Cache of
--                   include/mola/scheduler.hpp: find_node, the table of alive nodes, delayed tasks
--   Names           include/mola/singleton.hpp: module ids and names
--   AsyncLock       include/mola/spinlock.hpp: acquire and release; AsyncLock.Exclusion runs any callers
--   HashRing        include/mola/consistent_hashing.hpp: insert, erase and find
--   Future          include/mola/c/mola_refcnt.h and include/mola/c/mola_future.h; Future.Once runs any
--                   operations of the holders of a future
--   LinkedQueue     include/mola/queue.hpp: ConcurrentLinkedQueue, one access to shared memory at a time;
--                   LinkedQueue.System has any number of threads
--   LoadBalancer    include/mola/load_balancer.hpp: RandomStrategy, with the generator of random numbers
--                   of include/mola/scheduler.hpp
--   Packing         src/message.cpp: user messages with their counts, mola_message_cow, and serialize and
--                   deserialize of MessageWrapper; the functions of a type of messages are an argument
--   SafeQueue       include/mola/queue.hpp: enqueue and dequeue of ThreadSafeQueue; SafeQueue.Runs has any
--                   sequence of them
--   KvStore         KV-Store/app/HashTable/HashTable.c: OnGetReq and OnSetReq
--   Hash            KV-Store/app/Hash/Hash.c: jenkins_hash on a memory of bytes, and the commands of a
--                   client (parseAndProcRecvCmd), whose requests go to KvStore
--   Stream          include/mola/event_handler.hpp: how StreamHandler reads, and writes what its mailbox
--                   holds (Stream.Writing); Stream.Packages is the receiver of src/network.cpp and the
--                   default protocol, Stream.Gateway that of include/mola/gateway.hpp, with the buffers
--                   that a node queues for a message
--
-- The files below a component hold its theorems; each Tests file applies them to concrete inputs.
--
-- Numbers. Counters and ids are native numbers; where the code has a 32-bit or a 16-bit field, the
-- remainder is written out (u32, u16). The rings have 4096 places and a thief takes at most 2048
-- tasks, as in the code. A mailbox is taken to hold fewer than 2^32 messages and an actor to have
-- generated fewer than 2^32 - 1 request ids.
--
-- Loops. The loops of the mailbox, the ring and the hash table are structural, or are taken one
-- iteration at a time. The message loop of execute (messages) and the loop over delayed tasks
-- (run_tasks) run on fuel: one round more than there are messages that wait is enough for the first,
-- when the callbacks send nothing to their own actor; as many rounds as tasks are enough for the
-- second, when every task succeeds.
--
-- Arguments. What loaded libraries do (the callbacks of a module, its init), what the engine behind
-- the node manager answers, the return code of a nested dispatch and the pointer that it leaves, the
-- functions of a type of user messages, and ReplyMsg and SaveReturnState_ of the generated code are
-- arguments of the definitions. Failed assertions and reads through a mark are results of their own.
--
-- Not modelled: sockets, the event loop and the poller; the listening servers, the clients and their
-- gateway; threads, timers and condition variables; fibers; the ZooKeeper engine; allocation failures;
-- destructors of user messages; options, traces and tools; the spin locks.
mod Prelude
pub mod HashRing
pub mod Hash
pub mod Stream
pub mod Future
pub mod LinkedQueue
pub mod LoadBalancer
pub mod KvStore
pub mod Mailbox
pub mod Actor
pub mod ActorId
pub mod AsyncLock
pub mod Dispatcher
pub mod Message
pub mod Names
pub mod Nodes
pub mod Packing
pub mod SafeQueue
pub mod Module
pub mod WorkSteal
