-- ===== src/Lib.antt =====
-- Carmen: the state database of an EVM client, and the parts that it stands on.
--
-- The Go program offers accounts with balances, nonces, codes and storage slots to a virtual
-- machine. go/state/state_db.go is its core: it caches what it reads from an underlying State,
-- records every change of a transaction on an undo list of closures, so that a snapshot can be
-- reverted to, settles a transaction (EndTransaction, AbortTransaction), and sends the changes of
-- a block to the State as an update (EndBlock). It stands on go/common/lru_cache.go, the cache of
-- stored slots, and on go/common/update.go, the update. go/database/mpt keeps the accounts in a
-- Merkle Patricia Trie, whose nodes are in go/database/mpt/nodes.go, are named by
-- go/database/mpt/node_id.go, and shorten ways by the packed paths of go/database/mpt/path.go.
--
-- The files:
--   Prelude, with Prelude/Tests, Prelude/Lists, Prelude/Map and Prelude/Int: the names and lemmas
--     that all share; a Go map is an association list.
--   Lru: go/common/lru_cache.go, as the list of the entries, head first; Lru/Eviction: its laws.
--   FastMap: go/common/fast_map.go; FastMap/Lookup: a read after a write.
--   NWays: go/common/nways_cache.go; NWays/Scan: the loops over the ways of a set; NWays/Lookup and
--     NWays/Keeps: what a Set changes and what it keeps.
--   Update: the update and ApplyTo of go/common/update.go; Update/Sort: Normalize and Check, with
--     their order; Update/Sort/Order: what the sort does; Update/Codec: ToBytes and UpdateFromBytes,
--     with Update/Codec/Reading, RoundTrip and Safety.
--   Mpt/NodeId: go/database/mpt/node_id.go; Mpt/NodeId/Kinds: the kinds of identifiers.
--   Mpt/Nibble: go/database/mpt/nibble.go, with Mpt/Nibble/Prefix on common prefixes.
--   Mpt/Path: go/database/mpt/path.go; Mpt/Path/Packing and Mpt/Path/Compare relate it to lists.
--   Mpt/Node: the types and flags of go/database/mpt/nodes.go. Mpt/Node/Branch, Mpt/Node/Extension
--     and Mpt/Node/Leaf have setNextNode of branches and of extensions, setPathLength and
--     splitLeafNode; Mpt/Node/Walk is the way through branches and extensions that all operations
--     share; Mpt/Node/Values and Mpt/Node/Accounts have the operations (GetValue, SetValue,
--     GetAccount, SetAccount, GetSlot, SetSlot, ClearStorage), Mpt/Node/Frozen Freeze, and
--     Mpt/Node/Valid the well-formed tries, after Check.
--   Mpt/Node/View, Shape, Positions, Effect, BranchEffect, ExtensionEffect, SplitEffect, LeafParts,
--     LeafEffect and WalkEffect: what an operation does to the trie, from what it does at a leaf;
--     ValueReading, ValueEffect, AccountReading, AccountEffect, SlotChange and SlotEffect: what each
--     does there; Storage, State, Entries and Reads: the tries as maps; Copies and FrozenTries:
--     frozen nodes; Stale: a change that is not reported.
--   StateDb: go/state/state_db.go. StateDb/Types has the struct stateDB as the record StateDb, its
--     value types, and the methods' monad M: the result with the new state, or `none` for a
--     panic. A method is a definition of the same name: StateDb/Accounts (Exist, balances,
--     nonces), StateDb/Storage (slots, transient storage), StateDb/Code, StateDb/Context (refunds,
--     logs, access lists), StateDb/Contracts (CreateAccount, CreateContract, Suicide, Empty),
--     StateDb/Undo (the closures of the undo list and RevertToSnapshot), StateDb/Calls (the
--     interface VmStateDB as a data type of calls), StateDb/Transaction, StateDb/Block,
--     StateDb/Create and StateDb/Bulk (BulkLoad).
--   StateDb/Revert: the proof that a revert restores what a user can observe. View relates a state
--     to one with more values loaded; Journal relates an undo list to the states that it leads
--     back to; Caches, Undoes, SlotUndoes and CodeUndoes undo one write each; Keeps,
--     AccountTracks, AccountKeeps, StorageTracks, StorageKeeps, CodeKeeps and ContextKeeps show
--     that each method stays on the track; Calls and Agrees put them together, and Observe says
--     what the read methods return.
--   StateDb/Effects: what single operations change. Transactions and Commits are on the ends of
--     transactions; Sent has the updates of a block as a filter over a map, and what they make of
--     the values that the State holds, which Blocks and BlockSlots apply to balances and slots;
--     Ends is on EndBlock as a whole and on the resets.
--   The modules Tests and EffectTests run the definitions at small inputs.
--
-- Conventions. An address, a key, a value, a hash, a balance or a nonce is the number that its
-- big-endian bytes spell; a zero value of Go is 0, a nil slice is the empty list. A 64-bit refund
-- and reincarnation counter wrap around at 2^64, an amount at 2^256. A pointer that a closure
-- captures is the key of the map entry that it points to. The maps of slots are association lists
-- here, so loops over a map go in the order of the list, and the set writtenSlots, of pointers, is
-- a set of slots. The State is a record of its read methods, of which each may fail; Check and
-- Apply are parameters of EndBlock. Keccak hashing is a field of the State. The sort of Go's
-- library is an insertion sort. All loops are structural, but for the
-- walk along a chain of a FastMap, whose fuel is the number of entries, as chains lead to entries
-- that were added before, and the merge in Check, whose fuel
-- is the sum of the two lengths, and each of its rounds takes an element off one of the lists.
--
-- A node of the trie holds the nodes that it refers to, where the program has references: a node that
-- can be changed is reached by one way only, and nodes that are shared are frozen. What an operation
-- returns (Outcome) says whether the reference is another one than before, which the program tells by
-- the node's identifier. A path through the trie is the list of its nibbles; the 16 children, the
-- hashes and the bit masks of a branch are functions of the nibble, empty from 16 on. The code calls
-- itself through the closure createSubTree; here setNextNode takes the outcome of that call, and the
-- call on a branch that has just been made reaches the empty node. The operations recur on the trie,
-- so they need no fuel. An error and an index out of range are `none`; the stores do not fail. The
-- hash of an address or a key is a field of the configuration.
--
-- A state is coherent (IsCoherent) when its cache of stored slots has room for two entries and
-- holds what the State holds, unless it is outdated, and when the cached sizes of codes are theirs.
--
-- AddLog stores a copy of the log with its index; the program writes the index through the pointer
-- of the caller, so that a log which is added twice has the later index in both places.
-- GetTransactionChanges visits each slot once; the program may visit a slot twice, as ForEach of
-- FastMap does. The slice of codes that UpdateFromBytes makes before it reads them is not modelled:
-- it has as many entries as the data says, up to 2^32.
--
-- Not modelled: ClearAccessList within a transaction, which is not on the undo list, stands apart
-- from the calls; HasEmptyStorage is a call, but not among the reads that a revert restores, and
-- neither is GetTransactionChanges, which also names the accounts that were only read. The
-- memory footprint, printing, locks, files, the pool of instances, the C++ implementation and
-- third-party stores are left out. Of the trie, the hashing and the proofs, the encoders, the release
-- of nodes, the visitors, and the caches and files of the forest are not modelled, nor are the
-- stores of go/backend and the API of go/carmen.
pub mod Prelude
pub mod FastMap
pub mod Lru
pub mod Mpt
pub mod NWays
pub mod StateDb
pub mod Update
