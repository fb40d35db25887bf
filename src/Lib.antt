-- ===== src/Lib.antt =====
-- Verification of the C libraries of the repository: the search trees of common/src/tree, the
-- hash table of common/src/hashit and what else the files below name.
--
-- Tree models common/src/tree/tree.c and tree.h: the record of a tree, creation (tree_create),
-- lookup, the three traversals, BStree_destroy. Tree/Bst has node_attach and BStree_attach;
-- Tree/Remove BStree_remove, over a heap of nodes, since its writes can make a node its own
-- child, with Placed about trees in the heap, Located about the search, Removal, Replaced and
-- Lost about the three shapes of the node to remove, and Outcome; its recursions have fuel, of
-- which one more than the number of nodes is enough; Tree/Avl avl_node_height, the rotations,
-- avl_rebalance, AVLtree_attach, avl_rebalance_ex and AVLtree_remove; Tree/Rb the rotations of
-- the red-black tree, RBtree_attach and rb_sanity_check. Their child modules hold the proofs:
-- Tree/Sorted and Tree/Strict are about sorted sequences of data, Tree/Find about lookup,
-- traversal and destruction, Tree/Avl/Rotation, Attach, Remove and Mend about balance,
-- Tree/Rb/Attach and Order about colours and order. A tree is a value, since nothing outside a
-- tree points to its nodes; an operation that reads through a child pointer answers none where
-- that pointer is NULL. A data pointer is a number that the parameter deref takes to the int it
-- points to, and the compare callback is the one of common/src/tree/beliketree.c. Whether malloc
-- returned memory is a parameter of each operation.
--
-- HashTable models common/src/hashit/hashtable.c and hashtable.h with time33 of
-- common/src/hashit/hashit.c: 20 buckets, probed along hash, then hash plus the values of rand().
-- HashTable/Probe and Insert are about the probe sequence and what an insertion leaves,
-- HashTable/Keep about other keys, HashTable/Full about tables without a free bucket. The
-- callbacks and rand are parameters. The probe loop recurs on the number of probes that the code
-- allows itself, 100 * NUM_BUCKETS, so no fuel is added.
--
-- LinkedList models common/src/LinkedList/linkit.c and linkit.h on a heap of nodes: list_init,
-- the four insertions, data_remove, remove_elem, list_display, list_destroy, list_sort.
-- LinkedList/Seg has doubly linked segments, LinkedList/Insert the invariant and insertions at
-- the ends, LinkedList/Next and Prev insertions beside the current element, LinkedList/TakeOut,
-- Unlink and Remove removal, where data_remove and remove_elem tell the last node by different
-- tests, LinkedList/Whole the walks over the whole list, LinkedList/Sort the sort, with Place for
-- the place of a node, Round and Loop for the loop and Order for the result. The loops recur on
-- fuel, and the results ask for no more of it than one above the number of nodes.
--
-- Semaphore models sem_wrapper/sem_wrapper.c over what the pthread calls return. Semaphore/Wait
-- is about sem_wrapper_wait, Semaphore/Count about threads that post, wait and wake up in any
-- order, Semaphore/Faults about sem_wrapper_trywait and sem_wrapper_timedwait. The loops recur on
-- the list of wake-ups.
--
-- Handle models the object handles of common/src/common.c and common/inc/common_types.h, through
-- which the operations of trees and tables find their record; Tree and HashTable take that record
-- itself. Handle/Retrieve is about sequences of handles.
--
-- Server models the handlers of eLibrary/src/server/eLibrary_server_handler.c over the types of
-- inc/eLibrary_serverTypes.h beside it, of whose USER_INFO the handlers use fields that it does
-- not declare, so that these and their sizes are taken from the handlers: Server has the record
-- of a library, with stores that take a pointer to a user or a book, Server/Bytes the string
-- functions, Server/Names the search for a name. Server/Users has getUserInfo and addUser, with
-- Search and Register about them; Server/Friends addFriend and rmFriend, with Distinct and
-- Removal; Server/Activities addUserActy, getUserActy and getBookHty; Server/Books getBookByName,
-- addBook, rmBook, wowBook and buyBook, with Shelf, Removed and History; Server/Messages
-- notifyExchange and sendReceiveMsg, with Exchange, Delivery and Inbox; Server/Maps the maps of
-- identifiers; Server/Receiver what eLibrary_SVR_input_Msg of
-- eLibrary/src/client/eLibrary_client_parse.c does with an event. The search of getUserInfo
-- recurs on fuel, of which one more than the number of users is enough wherever it returns;
-- notifyExchange recurs on the rounds of its loop. Server/Lookup has getBookInfo and mergeActy.
-- Server/Brief has the texts of eLibrary/src/client/eLibrary_client_output.c, with Usage and
-- Boxes, over what printf makes of a number and myAscTimeLite of a time. Server/Commands has the
-- commands of eLibrary/src/client/eLibrary_client_parse.c, which call the handlers and reply with
-- those texts: add, rm and search there, whatsup, wow and buy in Queries, msg in Inbox; what a
-- command meets, memory, locks and the clock among it, is a record of its own. Yields, Handlers,
-- Kept, KeptInbox and Ways say what the parts of a command leave as it was, Session is about
-- commands and messages one after another, Mute about replies, Replies about add, rm and buy, and
-- Reading about msg. The name of a session's user, which the file does not declare, is an
-- argument. sendReceiveMsg and the thread of eLibrary_SVR_input_Msg meet in the event that
-- notifyExchange leaves. addUser, addFriend, addBook, wowBook and buyBook call addUserActy, and
-- wowBook and buyBook make the records that getBookHty counts.
--
-- Gopiggy models the game of gopiggy/Gopiggy.c: Gopiggy/Rank the two rankings, with Sorted about
-- their order, Gopiggy/Apple try_catch_apple and the thread feeder, Gopiggy/Pig the thread pig,
-- with Progress and Round about a round of its loop and Finish about the whole race. The loop
-- recurs on the list of rounds that the world gives, each with random numbers, times and the ways
-- in which feeder is woken while the round sleeps; 100 rounds are enough, since each pig runs at
-- least 6 of its 600 yards in a round. feeder is taken to run only in that sleep.
--
-- Pool models common/src/memman_pool/memman_pool.c and memman_pool.h, every operation of the
-- pool; Pool/Blocks is about the blocks that mem_alloc gives and mem_free takes back. Nothing
-- there needs fuel.
--
-- Parser models COMMON_CMD_parser of common/src/common_command.c, which splits a line into a
-- command with its options and parameters; Parser/Bare is about the lines it accepts. strtok is a
-- recursion over the line, so nothing there needs fuel.
--
-- Common passes on the library's names and has the Boolean tests, the list functions and the
-- sequencing of steps that may fault. Each Tests module applies the results to concrete inputs.
--
-- Not modelled: RBtree_remove, whose rotations can give a node two parents; the exercisers, which
-- read commands from standard input and print; eLibrary_SVR_input_View, Init and Term of
-- eLibrary/src/client/eLibrary_client_parse.c, which name variables that nothing declares; chatty
-- and TinySQL; and, of eLibrary, the process, the database and the connections, whose work is
-- done by calls of a queue, a database engine and sockets.
pub mod Common
pub mod Tree
pub mod HashTable
pub mod LinkedList
pub mod Semaphore
pub mod Handle
pub mod Server
pub mod Gopiggy
pub mod Pool
pub mod Parser
