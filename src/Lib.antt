-- ===== src/Lib.antt =====
-- RUFS: a filesystem that several users share. One master knows which peer has which file; every
-- participant runs a server that offers its folders, a scanner that keeps their hashes, and a
-- front end through which files of all participants are read.
--
-- How the parts work together. The scanner (filescanner/) hashes a shared folder and calls its
-- listeners for each change. The server (server.go) listens: it keeps which hash stands at which
-- path, answers the reads of peers, and sends a SetFile to the master, over a client that connects
-- again (types.go). The master (master.go) authenticates a session and stores the file in a
-- database, here the one in memory (database_inmem.go). A front end (fuse.go, felib.go) lists
-- directories through a cache and opens a file with its hash, size and owners; the fetcher
-- (fetch.go) then reads it in blocks from the owners.
--
-- Files and code.
--   Base: numbers, byte strings, maps as association lists, and results of Go functions: a value,
--     an error, or a run-time panic.
--   Common: common/types.go, and common/hash.go in Common/Hash.
--   MemoryDb: database_inmem.go, every function of it but Close, which does nothing; its children
--     hold the proofs.
--   SqliteDb: database_sqlite.go, which a build tag puts in its place. A statement is what its SQL
--     says of the rows of the table; whether the engine fails at it is a parameter.
--   BoltDb: database_bolt.go, the third of them, over the calls of the library (BoltDb.Bolt).
--   Store: the methods of Database that master.go calls, as a record, with what they promise as
--     laws, which the master's theorems use. MemoryDb/Instance fills both.
--   Vault: createAuthToken and signClient of crypto.go; Vault/Files: its templates and files,
--     getTlsCert and getTlsConfig.
--   Master: the handlers of master.go; Master/Registration: Register with the vault.
--     Master/System: Run, as a list of events. Master/Startup: genMasterKeys, newMaster and Setup.
--   Fetch: fetch.go. NewHandle is new_handle, realFetch is real_fetch, and fetch is in two
--     parts, its start and the end of its goroutine (fetched). Read, in Fetch/Read, is begin_read
--     (up to the unlock before it waits), settle (the goroutines finish) and finish_read.
--     Fetch/Overlap: reads of one handle, goroutines and contexts in any order, as a step relation
--     whose steps are begin_read, fetched and finish_read. Fetch/Sharing: GetFetcher and
--     MeasureLatency. Fetch/Stream: pfStream; drain is a client that reads one up to the end.
--   Ftp: ftp.go, the driver; Ftp/Serving: newFTPd, without the library's server.
--   Frontend: felib.go, which fuse.go copies. One round of cachePurger is tick.
--   Fuse: the nodes of fuse.go; Fuse/Mount: newFuseMnt, Open and the reads of a handle;
--     Fuse/Running: Run.
--   Scanner: filescanner/filescanner.go; Scanner/Restart: Run, up to its saves; Scanner/Saving:
--     the saves that go on beside a pass, as a step relation over a folder that may change.
--   Server: server.go; Server/Creating: newServer; Server/Setup: Setup and getCertificates;
--     Server/Exporting: the calls of Run's scanners, one export at a time; Server/Running: Run
--     with changes, exports, reconnects and other shares in any order; Server/Threads:
--     startSetFileThreads, with the state of each of the four threads, and Server/Threads/Delivery
--     and Publication what the threads make of a master; Server/Answering: the fetcher of one participant and the servers of others.
--   Client: RUFSMasterClient of types.go; Client/Calls: its typed calls and RUFSClient;
--     Client/Overlap: calls that overlap after a shutdown.
--   Start: main.go, with getPath on fuel; Start/Ending: its end, with the goroutines that run the
--     modules and the signal in any order.
--
-- Bounds and fuel. Sizes, offsets and times are natural numbers; the counts of the database are
-- integers without a bound, since a count of 2^63 publications is out of reach. Three loops are on
-- fuel. The one over the listeners of Scanner.set has the number of listeners, and each round
-- drops a listener or passes one. The client that drains a stream has one call more than the rest
-- of the file has buffers. The block size is 2 ^ power for a power below 63, where it is an int of
-- Go. getPath calls itself for one flag, whose path has no placeholder unless it calls itself for
-- ever: a fuel of two is enough. Every other loop is over a list, a tree or a count.
--
-- Parameters. SHA-1, the parsing and signing of keys and certificates (Vault.Crypto), the network
-- that a Signin dials (Master.Network), the answers of remote calls, the content of files, and
-- which contexts are done are arguments of the definitions that use them; so are the errors of the
-- SQL engine, the order in which it gives the rows that GROUP BY joins, the buckets of Bolt, the
-- accounts of the system (Fuse.Mount.Accounts), keys and PEM (Vault.Files.Pki), sockets
-- (Server.Setup.Env) and paths (Start.Paths).
--
-- Not modelled. Each handler is one step: the program locks its database, caches and blocks, not
-- the whole of a handler. Interleaved are the reads of a handle, the SetFile threads, the calls of
-- a client, the exports of a scanner and its saves; two calls at once over one connection of the
-- master, a listing that is stored while another is fetched, and a change of the list of listeners
-- itself during a call of them are left out. The order in which Go walks a map is the order of the
-- list, but for the exports of Server/Running. There a change of a scanner's cache and the call of
-- its listener are one step. Paths are joined (Fuse.join_path) as filepath.Join does for parts that
-- filepath.Clean leaves as they are. Outside Scanner/Saving a folder stays as it is during a pass.
-- Also left out are timers, logging, the closing of connections, the encoding of
-- the cached hashes on disk, and what an SQL transaction that is left open does to the calls after
-- it.
pub mod Base
pub mod Client
pub mod Common
pub mod Fetch
pub mod Frontend
pub mod Ftp
pub mod Fuse
pub mod Store
pub mod MemoryDb
pub mod Scanner
pub mod Server
pub mod SqliteDb
pub mod BoltDb
pub mod Start
pub mod Vault
pub mod Master
