-- ===== src/Lib.antt =====
-- Collective storage: members pool their disks, name each other by federated addresses, share data
-- stores under permissions and let new members in by invitation codes.
--
-- How the parts interact: the permission manager holds the data stores and decides requests by a
-- caller's address, and the enforcer asks it on behalf of gRPC callers; file contents are cut into
-- chunks that are allocated to nodes, and the coordinator keeps the tables of directories and
-- files and sends the chunks to storage nodes; the gossip service keeps the table of other members'
-- coordinators, and a client that is told their endpoints calls them with retries over a pool of
-- connections; invitations carry grants for data stores and record the addresses that used them.
--
-- Files and the code they model (paths from the repository's root):
--   Address        pkg/federation/address.go: parse_address is ParseAddress, to_text String,
--                  validate Validate, equal Equal; Address/Format proves the round trips
--   DataStore      pkg/federation/datastore.go: Right, PlacementStrategy, Permission, DataStore
--   Permission     pkg/federation/permissions.go: the PermissionManager, a method a function of the
--                  same name; Permission/Ownership holds transfers, readers and the import;
--                  Permission/Lookup and Granted read the search and the verdict as specifications,
--                  Entries, Changes and Transfer follow each change to the checks behind it, Cache
--                  and Invariant treat histories
--   Invite         pkg/federation/invite.go: the InviteManager; Invite/Code draws codes and share
--                  URLs, Invite/Rules, Uses and Active hold the proofs
--   Storage        pkg/storage/storage.go: splitting; Storage/Assembly ReassembleChunks, Storage/Pieces,
--                  Slots and Whole its proofs; Storage/Distribution the allocation of nodes, with its
--                  proofs in Allocated and Diverse
--   Gossip         pkg/federation/gossip.go: the peer table, its lock and the failure detector;
--                  Gossip/Messages the handlers, Gossip/Exchange connections and exchanges;
--                  Gossip/Lock, Versions, Clock, Detector, Table and History hold the proofs
--   Enforcer       pkg/coordinator/permissions_enforcer.go: the enforcer's methods, with enforce for
--                  checkPermission; Enforcer/Guard its proofs
--   Coordinator    pkg/coordinator/operations.go: directories, with create_at for the body of
--                  CreateDirectory; Coordinator/Removal is DeleteDirectory, Coordinator/Moving
--                  MoveEntry, Coordinator/Files CreateFile and DeleteFile of coordinator_file.go;
--                  Creation, Detached and Depth state the outcomes of requests; Tree says what a
--                  tree is, and Created, Steps, Unlink and Reach that steps keep it.
--                  Coordinator/Contents and Transfer are WriteFile, ReadFile and the chunks'
--                  part of DeleteFile with the loops of
--                  coordinator_storage.go over a NodeService; Received, Stored, Rejoined, Window,
--                  Written and Unstored follow a file through a write and a read, and Service fills the
--                  interface with the nodes of Node. Storing is StoreFile of coordinator.go, and
--                  Backed its proof
--   Node           pkg/node/node.go: StoreChunk, RetrieveChunk, DeleteChunk, GetCapacity and
--                  loadExistingChunks with its Glob; Node/Kept, Restart and Accounting hold the
--                  proofs
--   Pool           pkg/federation/connection_pool.go: the connections and their circuit breakers
--   Client         pkg/federation/resilient_client.go: call_with_retry is CallWithRetry, retry_loop the
--                  loop of retryOperation; Client/Calls, Failover and Answered hold the proofs
--   Text, FilePath, Dict   what the code uses of strings, path/filepath and maps
--   Prelude        shared names and lemmas; Tests the runs and the theorems at concrete inputs
--
-- A Go string is a list of bytes, a map an association list whose order is not used, a pointer
-- that may be nil an Option, a method that takes a lock one step from state to state. Times are
-- natural numbers of nanoseconds and are read once in a call. An error is a value without its
-- message, except that the error cases of one function are told apart.
--
-- Fuel: the loop of findDataStore (climb) takes the length of the path, and find_data_store-clean
-- shows that this is enough for every cleaned path. split_loop takes the length of the input, as
-- each round with a positive chunk size reads a byte (reassemble_chunks-split_into_chunks);
-- decimal takes one more than the number. The recursive deletion and the moves of children take
-- one more than the longest path of a directory; delete_directory_ends shows that this is enough
-- for a deletion where children have longer paths than their directory. For moves no such theorem
-- is proved, and a move that ran out of fuel would be an error of its own.
--
-- Parameters: what the coordinator asks of storage nodes is the NodeService, with its laws on what
-- a node keeps, and what the file system answers to a node comes in with each call. The gzip coder
-- and the hash are the fields of Storage's Codec, with the law that decoding undoes coding; gRPC is
-- Gossip's Network and Pool's Grpc, which the Client's Network gives for each endpoint tried, so that
-- it may change while the client waits; the answers of a called function and of its context are a
-- Client's Script; and the shuffle of peers is an argument that only rearranges.
--
-- The mutex of the gossip service is part of its state, and a method that waits for it in vain is
-- none.
--
-- Not modelled: other locks, goroutines (a tick of the invite cleanup is one operation), logging,
-- the other gRPC services, certificates and the command line. Integers are unbounded; negative limits
-- and durations are not. The gossip version wraps at 2 ^ 64.
pub mod Prelude
pub mod Text
pub mod Address
pub mod Dict
pub mod FilePath
pub mod DataStore
pub mod Permission
pub mod Invite
pub mod Tests
pub mod Storage
pub mod Gossip
pub mod Enforcer
pub mod Coordinator
pub mod Node
pub mod Pool
pub mod Client
