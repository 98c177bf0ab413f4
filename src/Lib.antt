-- ===== src/Lib.antt =====
-- A model of a HotStuff replica with its reputation-based and other leader rotations.
--
-- The parts of the program and their models. Paths are those of the repository.
-- - helper.go (NumFaulty, QuorumSize): Sizes; Sizes/Intersections on what quorums share.
-- - consensus/types.go, block.go, events.go, genesis.go (certificates, SyncInfo, Block, messages,
--   ToBytes, Equals, Hash): Types. A 32-byte hash is the number that its bytes are in little endian,
--   a view a number below 2^64, an ID one below 2^32; SHA-256 is the parameter `sha256`.
-- - crypto/bitfield.go: Crypto/Bitfield. crypto/base.go (the certificates, over a scheme CryptoImpl):
--   Crypto/Base. crypto/cache.go (the LRU cache of checks): Crypto/Cache. crypto/ecdsa/ecdsa.go
--   (threshold signatures as sets of signatures, over the curve): Crypto/Ecdsa, with the check of a
--   set of messages in Crypto/Ecdsa/MessageSets. crypto/bls12/bls12.go (signatures and aggregates, over
--   the pairing library): Crypto/Bls12.
-- - blockchain/blockchain.go (Store, LocalGet, Get, Extends, PruneToHeight), with Fetch and FetchQF of
--   backend/gorums/gorumsconfig.go and BlockFromProto of internal/proto/hotstuffpb/convert.go:
--   BlockChain. The network's reply to a fetch is a parameter; a fetch can be cancelled.
-- - replica/cmdcache.go (addCommand, Get, Accept, Proposed): CmdCache. replica/clientsrv.go
--   (ExecCommand, Exec, Fork): ClientSrv. The protobuf encoding of batches is a parameter.
-- - client/client.go (ExecCommandQF, sendCommands, handleCommands): Client. An interleaving of the two
--   goroutines is a list of actions; the input and the replies are arguments.
-- - consensus/chainedhotstuff, fasthotstuff and simplehotstuff (CommitRule, VoteRule) and the
--   ProposeRule of consensus/byzantine: Rules, with Rules/Chains and Rules/VoteRules on them.
-- - consensus/consensus.go (StopVoting, Propose, OnPropose, commit, commitInner): Consensus.
-- - synchronizer/synchronizer.go: HighQc (UpdateHighQC, SyncInfo), Synchronizer (AdvanceView, newCtx)
--   and Timeouts (Start, onLocalTimeout, OnRemoteTimeout, OnNewView).
-- - synchronizer/viewduration.go: ViewDuration, over a parameter for the arithmetic of float64.
-- - consensus/votingmachine.go (OnVote, verifyCert): VotingMachine.
-- - leaderrotation (fixed, roundrobin, carousel, reputation): LeaderRotation. The replica takes the
--   rotation as the function `get_leader` of its environment.
-- - eventloop/eventloop.go: EventLoop.
-- - internal/proto/hotstuffpb: the messages of hotstuff.proto are Hotstuffpb, the conversions of
--   convert.go Hotstuffpb/Convert; what they read from bytes is Hotstuffpb/Bytes.
-- - backend/gorums/gorumsconfig.go (NewConfig, Connect, Propose, Timeout, Vote, NewView): Network.
--   backend/gorums/gorumsserver.go (getClientID, Propose, Vote, NewView, Fetch, Timeout): Server.
-- - internal/protostream/protostream.go (Write, Read, WriteAny, ReadAny): Protostream.
--
-- How they interact. The modules of the program reach one another through a Modules object. Here the
-- fields of all of them are one record, State.Replica, and what is configured or comes from outside
-- is another, State.Env; Access has their calls on the block chain. Messages, events, timers, commits
-- and panics are effects, kept in the `trace` of the replica, latest first. Handlers call one another
-- in a circle: AdvanceView proposes, Propose hands the proposal to OnPropose, and OnPropose calls
-- AdvanceView as its last deferred act. Each handler returns its last call as a Consensus.Call, and
-- Synchronizer.run makes the calls. Node has the initial state and the steps that events cause, and
-- runs as sequences of steps in any order. The goroutine that checks a vote is an effect, and its body
-- a step of its own. Prelude has the shared types, the Boolean tests and the lemmas on lists and maps,
-- which are association lists, so a range over a map runs in the order of its list. Tests has a
-- configuration of four replicas and an instance of each result below.
--
-- Bounds and fuel. A chain of handlers has seven calls (call_bound): every AdvanceView on the way that
-- calls Propose has raised the view above the certificate at hand, and its proposal carries that
-- certificate again, so the circle is not entered twice. This takes a replica that does not fork and a
-- certificate whose next view is no overflow: the next view is taken modulo 2^64, and a chain that
-- starts from a certificate of the last view need not have ended then; Node has a step that makes the
-- rest of its calls. Extends, commitInner and the first loop of PruneToHeight follow parents on
-- `env.fuel`, and a fuel above the number of blocks on the way is enough. The code does not enforce that
-- views fall from a block to its parent; where they do, their distance bounds that number.
--
-- Not modelled: logging and printing; the ticking of timers, and the timers that a view's duration
-- sets; sockets, gRPC and the encoding of protobuf messages, which are arguments or lists of calls; the
-- client's rate steps, its connections, Start and Stop; key files, command line, metrics and plots;
-- locks, as each handler runs alone in the event loop, except for the two halves of Get, which are separate functions. The event loop takes the
-- events of Server one by one, as the steps of Node. A point of the BLS12 curve is its compressed bytes.
-- The results that VerifyThresholdSignatureForMessageSet of crypto/ecdsa awaits arrive in the order of
-- the hashes. The fields mostValue and nextLeader of the synchronizer are never read by the protocol.
-- Carousel compares blocks with the genesis block by hash in place of pointer. Get of the command queue
-- is modelled for a batch size above 0.
pub mod Prelude
pub mod Sizes
pub mod Crypto
pub mod Types
pub mod Hotstuffpb
pub mod BlockChain
pub mod CmdCache
pub mod State
pub mod Access
pub mod HighQc
pub mod Rules
pub mod Consensus
pub mod Synchronizer
pub mod Timeouts
pub mod ViewDuration
pub mod VotingMachine
pub mod Node
pub mod LeaderRotation
pub mod EventLoop
pub mod Client
pub mod ClientSrv
pub mod Server
pub mod Network
pub mod Protostream
mod Tests
