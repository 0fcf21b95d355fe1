-- ===== src/Lib.antt =====
-- A file sharing system of peers without a center (C++, under src/): every peer keeps connections
-- to its neighbours, floods queries over them, sends the answers back along the way the query came,
-- and fetches or pushes files over connections of their own.
--
-- The parts and the files that model them:
--
-- - Text (std::string as bytes), Text/Number (std::to_string, std::stoi, std::stoll, std::stoull by
--   their documented behaviour), Text/Split: the helpers of src/defines.cpp (SplitString, JoinString,
--   SplitCommandStringBySize, IsNumber).
-- - Containers: std::unordered_map and std::unordered_set as lists of entries, with operator[] as
--   `index`, which inserts a default. Ids: the constants and structures of src/defines.h.
-- - Buffer: the fixed buffers of MSG_BUF_SIZE bytes through which messages pass.
-- - Peer: the members of CPeerClient (src/peer_client.h) and its small operations; Peer/Wire: the texts
--   of messages; Peer/Queries: HandleQuery and HandleInvQuery; Peer/Hits: HandleQueryHit and
--   HandleWaitQueryHit; Peer/Operations: what the user and the tests start; Peer/Threads: the threads
--   (HandleMessageThread, BroadcastProcessThread, MantainQueryMapSize, and UpdateFileInfoPeriodically,
--   which nothing in the program starts) as one round each, and CPeerServer::DealWithRequest (src/peer_server.cpp), which feeds the first.
--   Peer/Queries/Refinement, Peer/Queries/Replication and Peer/Hits/Refinement hold the specifications
--   on records, receive_query, receive_inv_query and receive_hit, that the handlers of texts are
--   compared with.
-- - Transport: the loops around send() and recv() (src/tcp_server.cpp, and the loops of the clients),
--   and a round of the accept loop of src/tcp_server.cpp.
-- - FileTransfer: CPeerFileClient (src/peer_file_client.cpp) and CPeerFileServer
--   (src/peer_file_server.cpp); FileTransfer/Server: the server's connections as a step relation.
-- - Disk: folders and files, with the paths that lead to them, by the documented behaviour of fopen,
--   std::ofstream, opendir, mkdir and readdir; Exchange: both ends of a transfer with their disks
--   (HandleClient, SendFile and ReceiveFile of src/peer_file_server.cpp, HandleObtainResponse and
--   HandlePushResponse of src/peer_file_client.cpp).
-- - Register: CRegisterServer (src/register_server.cpp), and Register, HandleRegisterResponse and
--   ConnectToPeers of src/peer_client.cpp.
-- - Config: LoadSettings and LoadTopology of src/peer_client.cpp; Startup: the arguments
--   of src/peer_exe.cpp, Register, and CPeerClient::Run up to its threads, made of these.
-- - Commands: the loop of CPeerClient::Run over the commands of the user, with the variables that the
--   commands share.
-- - Network: peers in a row, and how a message passes through their threads, one peer after another;
--   Network/World: the peers of a network, whose operations and rounds come in any order, as a step relation,
--   with the invariant of its queues, caches and buffers.
-- - Result: a computation that may end the process or meet undefined behaviour; Prelude: shared names.
--
-- A handler is a function from the state before it to the state behind it, or to a fault: an
-- exception that nothing catches, a failed assert, a call of exit, or undefined behaviour, none of
-- which is given a value. An int is an integer with the overflow of `ttl--` and of the ports
-- written out (but not of the peer's own factor less one, which overflows for the least int alone),
-- the message counter is taken modulo 2^64, and size_t has 64 bits. In FileTransfer/Server what a
-- thread does between taking and releasing a lock is one step; in Network/World a whole round of a
-- thread is one step, and the fields of a peer that two threads use at once, such as m_queries in
-- RelayQueryHit, are not spoken of. The clock, the results of send(), recv() and connect(), and the
-- order in which a container is walked are the environment's: arguments, or part of the state.
--
-- Fuel: the sending loops take a unit for a call, and no send that makes progress is called more
-- often than there are bytes; the loop over a file takes a unit for a packet and is given one more
-- than the file has bytes; the attempts to connect end after eleven, and are given twelve. The loop
-- of the TCP server has no end of its own, and its two bounds say how far it is followed.
--
-- In Network/World ReplicateFile as a whole is run by a peer with a factor of two or more only,
-- since with a smaller one it may read an id that was never set, no test command is given, and no
-- cache becomes so large that it is cleared.
--
-- A path ends at its first zero byte, as c_str() makes it, and a name has at most 255 bytes
-- (NAME_MAX).
--
-- Not modelled: links and permissions on the disk, opendir of the shared folder failing in
-- LoadFileInfo, delays, how long the client_addr of the accept loop lives, and output, with the
-- difference of times that HandleQueryHit prints (it may overflow).
pub mod Prelude
pub mod Result
pub mod Text
pub mod Containers
pub mod Ids
pub mod Buffer
pub mod Peer
pub mod Transport
pub mod FileTransfer
pub mod Register
pub mod Config
pub mod Commands
pub mod Startup
pub mod Disk
pub mod Exchange
pub mod Network
