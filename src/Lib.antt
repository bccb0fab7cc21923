-- ===== src/Lib.antt =====
-- Sector, a distributed file system, and Sphere, its parallel data processing engine: the parts
-- of the program that keep the state of the file system, modelled from its C++ sources.
--
-- A master keeps the metadata of all files in an index, the locks of the files that are open, and
-- the transactions in progress; slaves hold the files and report to the master; clients ask the
-- master for a file and then talk to slaves.
--
-- - Base: what the other modules share. Base/Maps and Base/Sets are std::map and std::set as
--   lists in the order of their keys (Base/Keys), Base/Words the arithmetic of int64_t on bit
--   patterns, Base/Int the codes that functions return.
-- - Address: struct Address and AddrComp of include/sector.h.
-- - Meta: common/meta.h and common/meta.cpp. A path is the list of its bytes, which are not zero;
--   parse_path and revise_path are the loops of Metadata::parsePath and Metadata::revisePath,
--   lock and unlock the methods of those names over the table m_mLock.
-- - Index: common/index.h and common/index.cpp. Index/Tree is class SNode with its map
--   m_mDirectory, Index/Walk the loops that walk down a path, Index/Edit the operations create,
--   move, remove, update and utime, each a function from the index and its arguments to the new
--   index and the code that the C++ function returns. The index is a node whose directory is
--   m_mDirectory. Index/Whole is merge and substract, Index/Read the operations that read.
--   Index/Saved is the private serialize and deserialize, a directory as the text of a file, and
--   Index/Collect is collectDataInfo, which gives a line for each data file. The children of
--   these modules hold the proofs: Index/Tree/Order the order of the maps, Index/Read/Files the
--   list of all files of a directory, which the reading operations are measured by. list and
--   lookup give the attributes that SNode::serialize prints. update takes the file's information
--   as SNode::deserialize reads it from the message.
-- - Trans: master/transaction.h and master/transaction.cpp, class TransManager. Trans/Ledger is
--   about the list of transactions, Trans/Slaves about the reports that end one.
-- - Routing: common/routing.h and common/routing.cpp, the masters that share the work and which
--   of them is responsible for what. Routing/Table is about the finger table, Routing/Choice
--   about the choice. The hash is a parameter, and so is the address that a map creates for a
--   missing key.
-- - User: master/user.h and master/user.cpp. User/Permission is about User::match, User/Dirs
--   about the lists of directories that the security server sends (User::serialize of
--   security/security.cpp), User/Active about the users that are dropped, User/Codec the messages
--   by which masters exchange users, over the readers of Base/Wire.
-- - Security: security/security.h and security/security.cpp, class SServer: who may join and log
--   in, and the keys (Security/Keys). The files with the lists and the accounts are not modelled,
--   SSL is left out, and inet_pton is a parameter.
-- - Topology: common/topology.h and common/topology.cpp, class Topology: the paths of addresses,
--   the distances between them (Topology/Distance, Topology/Nearest) and the message by which
--   clients get the topology (Topology/Wire), as a list of 32-bit words. inet_pton is a
--   parameter.
-- - Slaves: master/slavemgmt.h and master/slavemgmt.cpp, class SlaveManager, with class SlaveNode
--   of common/topology.h. The choice of a slave for a new replica (Slaves/Replica), the check for
--   bad and lost slaves (Slaves/Watch), the slaves that come and go and the storage paths
--   (Slaves/Members), the reports (Slaves/Info), the choice of nodes for a client (Slaves/IoNode)
--   and the votes (Slaves/Votes). The numbers of the clusters that insert and remove keep are in
--   Topology/Cluster. Random numbers are parameters, and so is the node that a map creates for a
--   missing id. init, the traffic sums of updateClusterStat, and the message with the list of
--   slaves are not modelled.
-- - Cache: client/fscache.h and client/fscache.cpp, the classes StatCache (Cache/Stat) and
--   ReadCache (Cache/Blocks, Cache/Growth) of a client. The bytes of a block are a list, and a
--   read outside of it is the result none.
-- - Node: common/snode.cpp, the text of a node that SNode::serialize prints and
--   SNode::deserialize reads, over the decimal numbers of Base/Decimal (printf, atoi and atoll).
--   A read behind the end of the text is the result none.
-- - Peers: gmp/prec.h and gmp/prec.cpp, class CPeerManagement of the messaging layer: the
--   messages that came lately (Peers/Records, Peers/Recent), the table of peers and its limit
--   (Peers/Table, Peers/Limit) and the round trip times (Peers/Rtt). A pointer to a record is the
--   key of the record. DHash::hash is a parameter, and so is the limit, which is 65536.
-- - Master: master/master.h and master/master.cpp, class Master, over all of the parts above that
--   a master has. Master/Dispatch is process and processEx; Master/System, Master/Files with
--   Master/Open, Master/Sphere and Master/Sync are the handlers processSysCmd, processFSCmd,
--   processDCCmd, and processSyncCmd with processMCmd and the loss of a slave in run;
--   Master/Replicas is createReplica and a round of the loop of replica. A handler is a function
--   from the state and a request to the new state and the list of what is sent, none where the
--   C++ is undefined or throws. A request is a constructor for each message type with the fields
--   that the code reads from the bytes; what is sent is the answer, the orders to slaves, and the
--   changes for the other masters. Requests are handled one after another, by one worker where
--   the program has four. What comes from outside, the clock, the random choices, the hash and
--   the answers of slaves, is a record World, one for each event, and in a round of replication
--   one for each file. Master/Joins is processUserJoin, processMasterJoin and, of join, the loop
--   over the masters; the slaves, users and metadata that a new master gets are left out. The
--   children hold the proofs: Master/Run what every event keeps, Master/Followers the other
--   masters, Master/Opened and Master/Life an open file, Master/Access who may,
--   Master/Joins/Logins a log-in, Master/Joins/Masters a new master, and Master/Guards the tests
--   at the head of the handlers. processSlaveJoin, init, the probes and restarts of run, and the
--   two files of settings are not modelled.
--
-- All the state is passed explicitly. Mutexes are left out: each method holds its lock from its
-- first statement to its last, so that calls are one after another; only the overload of
-- chooseReplicaNode for addresses reads the list of addresses before it takes the lock. The clock
-- CTimer::getTime is an argument, one value for all the readings of a call, but in
-- CPeerManagement::insert, whose three readings are three arguments. int and int64_t values that
-- are only stored and compared are natural numbers, the bit patterns; where the program adds, the
-- wrap-around is written out. The loops recur on the path, the list or the tree that they walk.
-- Printing a number takes at most 20 digits, enough for 64 bits. Two loops run on fuel: the loop
-- of Index::lookup over a stack of nodes, for which one round for each node of the index is shown
-- to be enough, and that of User::deserialize over a list of directories, for which one round for
-- each directory is.
--
-- Index::move copies the node before it assigns the copy, where the C++ assigns from a reference
-- into the tree. The two differ only if the target lies above the source, which the result on
-- moves excludes; the C++ then reads a node that it has destroyed.
--
-- Not modelled: sockets, threads, files on disk, SSL and logging; the UDT library, which is a
-- project of its own; and the parts that the list above does not name.
mod Base
pub mod Security
pub mod Master
pub mod Meta
pub mod Address
pub mod Index
pub mod Trans
pub mod Routing
pub mod User
pub mod Topology
pub mod Slaves
pub mod Cache
pub mod Node
pub mod Peers
