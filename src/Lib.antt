-- ===== src/Lib.antt =====
-- The server side of NECRO MMO: what its network buffers, its login server and its world server
-- promise.
--
-- The program's parts and how they interact. A client first talks to the login server (NECROAuth): a
-- `TCPSocketBoost` reads bytes into a `NetworkMessage`, the `AuthSession` on top of it finds whole
-- packets in that buffer and answers with `Packet`s, which the socket sends from its queue. The client
-- states its version and name, solves a proof of work, and sends a password; the database and the
-- crypto threads answer later, and the session gets a key and a greet code. With these the client
-- talks to the world server (NECROWorld), in frames that `NetworkMessage` encrypts with AES-GCM. The
-- world's sessions are counted by the `SessionManager`. They post commands to the `WorldSimulation`,
-- which runs them on one thread between the ticks of its `Zone`s; a zone owns entities, and lists them
-- by `Cell`. A player's entity sends packets back through its `PlayerPacketQueue`.
--
-- Which file models which part:
--   Common: tests, lists, bytes, dictionaries and integers that the parts share.
--   Packet: src/shared/Packets/Packet.h and Packet.cpp (`Append`, `operator<<`, `GetContent`).
--   Aes: src/shared/Encryption/AES.h (`IV`, `Encrypt`, `Decrypt`).
--   Message: src/shared/Packets/NetworkMessage.h. Message/Crypt holds `AESEncrypt` and `AESDecrypt`.
--   Queue: src/NECROWorld/Server/Sockets/PlayerPacketQueue.h.
--   Entity: src/NECROWorld/Server/Simulation/Entities/, with the grid of src/shared/World/GameRules.h.
--   Zone: src/NECROWorld/Server/Simulation/Maps/. Zone/Moves holds the operations that move entities.
--   Simulation: src/NECROWorld/Server/Simulation/WorldSimulation.cpp. Simulation/Commands holds
--     WorldCmds/PlayerWorldCmds.cpp, and Simulation/Loop the loop.
--   Sessions: src/NECROWorld/Server/Managers/SessionManager.h.
--   Socket: src/shared/Sockets/TCPSocketBoost.h and TCPSocketBoost.cpp.
--   Auth: src/NECROAuth/Server/Auth/AuthSession.h and AuthSession.cpp. Auth/Work holds the proof of
--     work, Auth/Handlers the handlers, Auth/Reading the read loop, Auth/Results the callbacks of the
--     database and of the crypto threads.
--   World: src/NECROWorld/Server/Sockets/WorldSession.h and WorldSession.cpp. World/Handlers holds the
--     handlers, those of Handlers/PlayerHandlers.cpp too, World/Reading the read loop, World/Answers
--     the callbacks of the databases and of the simulation, World/Updating the turns of
--     its network thread, World/Events all that can happen to a session, in any order.
--   Tests: concrete inputs.
--
-- How state and operations correspond: a class is a record with its fields, a method is a function
-- from the old record to the new one and the result. A field m_fooBar is foo_bar. A function that
-- returns `none` has followed a null or dangling pointer, or has left a vector, where the code would;
-- the theorems say that this does not happen. A pointer to a cell is its index in `m_cellMap`, a
-- pointer to an entity is its guid in the zone that owns it, a pointer to a zone is its id. An
-- `unordered_map` is an association list. A method under a mutex is one step. What an object hands to
-- another thread stands in a list of its state (`saved`, `posted`); a request of a session of the
-- world server leaves `posted` when its answer comes.
--
-- Parameters: OpenSSL's AES-128-GCM (`Gcm`, with the laws that it documents) and SHA-256, what the
-- code computes with floats (`Fpu`, on bit patterns), the random bytes, the clock, the tables of the
-- database and `inet_pton`. The rows of a query have the types that the code asks for. What
-- `RAND_bytes` draws is a list that ends where it fails.
--
-- Bounds and fuel: integers wrap as their C++ types do where the code adds or subtracts; the sizes of
-- buffers in memory do not. The read loop of a login session has fuel, five rounds, which are enough
-- since each round counts a packet and the fourth packet ends the session. The read loop of a session
-- of the world server has a round for every unread byte and one more, which are enough since each
-- round consumes a frame of at least 32 bytes. The theorems on the simulation ask that fewer than 2 ^ 64
-- guids are given out.
--
-- Not modelled: the socket managers, the database workers, the name database and the client, which are
-- large parts of their own; and input, output, logging, threads and configuration, which are glue.
pub mod Common
pub mod Packet
pub mod Aes
pub mod Message
pub mod Queue
pub mod Entity
pub mod Zone
pub mod Simulation
pub mod Sessions
pub mod Auth
pub mod World
pub mod Socket
pub mod Tests
