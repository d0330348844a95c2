-- ===== src/Lib.antt =====
-- Gitabic: a peer-to-peer file sharer. Peers (Peer/) cut a file into pieces and blocks, ask one
-- another for blocks and keep their progress on disk; a server (Server/) tells them who has a file and
-- passes on the data with which two of them connect.
--
-- How the parts interact. A metadata file starts a download (MetaData, Progress). The chooser
-- (Chooser) picks blocks of the download for each peer; requests and blocks travel as messages
-- (Message.Torrent) and reach the handler of their file (Handler), which answers them from the file
-- (FileIo), and changes the states of the file's peers (Peers.Manager) and the chooser's bit fields. A
-- block that arrives is written to the file and marked in the download (FileIo, Progress). The
-- connections to the peers are shared by all files (Peers.Connections). A peer announces its files to
-- the server's tracker and asks it for peers (Message.Client, Tracker, Message.Server); the server's
-- signalling brings two peers together (Signal). The server's threads take messages from the sockets,
-- hand them to the handlers and queue the answers (Server). On the peer's side several threads share
-- one connection to the server (Socket), and announcements are repeated (Republish). Two peers exchange
-- datagrams (Ice). Keys are wrapped with AES (Aes), and pieces are checked with SHA256 (Sha).
--
-- Files:
--   Base, Bytes    shared names, lists and maps over the native numbers, the bits of a byte; outcomes of
--                  C++ calls (a value, an exception, undefined behaviour) and little-endian fields.
--   Splitter       FileSplitter::pieceSize of Peer/Utils/FileUtils/FileUtils.cpp.
--   MetaData       Peer/Utils/MetaDataFile/MetaDataFile.cpp: serialize and deserialize, and
--                  createMetaData in MetaData.Creation; MetaData.Password has the key's
--                  encryption under a password, and decryptAesKey.
--   Progress       Peer/Utils/DowndloadProgress/DownloadProgress.cpp: Progress.Status and
--                  Progress.Block for a block, Progress.Piece for PieceProgress, Progress.Download
--                  for DownloadProgress. Methods keep their names in snake case, but on_downloaded_block
--                  and on_block_status are DownloadProgress::downloadedBlock and updateBlockStatus.
--   FileIo         Peer/Torrent/FileIO/FileIO.cpp and the reading and writing of chunks in
--                  Peer/Utils/FileUtils/FileUtils.cpp; FileIo.Damaged has verifyFile,
--                  FileIo.Damaged.Reading with the exceptions of its reads.
--   Message        Message.Frame for MessageBaseToSend::serialize and the receiving of a frame;
--                  Message.Torrent for Peer/NetworkUnit/ServerComm/BitTorrentMessages.h;
--                  Message.Client and Message.Server for the messages of
--                  Peer/NetworkUnit/ServerComm/Messages.h and Server/NetworkUnit/ServerCom/Messages.h,
--                  to the server and from it.
--   Tracker        Server/NetworkUnit/ServerCom/TrackerDataStorage/TrackerDataStorage.cpp and
--                  Server/Communication/TrackerMessageHandling.cpp.
--   Signal         Server/Communication/IceMessagesHandler.cpp.
--   Server         Server/Communication/MessageHandler.cpp and handleClient of
--                  Server/Communication/MultiThreadedServer.cpp; Server.Delivery has the runs of its
--                  threads' interleaved turns.
--   Chooser        Peer/Torrent/PieceManagement/RarityTrackerChooser.cpp: Chooser.Rarity for the bit
--                  fields and counts, Chooser.Window for the windows, Chooser.Filling for ChooseBlocks,
--                  Chooser.Requests for the joining of requests, Chooser.Responses for
--                  updateBlockReceived.
--   BitField       DownloadProgress::getBitField, against how the chooser reads a bit field.
--   Peers          Peers.Connections for
--                  Peer/Torrent/PeersConnectionManager/PeersConnectionManager.cpp, Peers.Manager for
--                  Peer/Torrent/PeerManager/PeerManager.cpp.
--   Handler        Peer/Torrent/TorrentFileHandler/TorrentFileHandler.cpp, with Handler.Responses for a
--                  block that arrives and Handler.Sending for sendMessages; Handler.Dispatch has its
--                  queues and TorrentManager::handleMessage of
--                  Peer/Torrent/TorrentManager/TorrentManager.cpp.
--   Aes            Peer/Encryptions/AES/AESHandler.cpp: Aes.Tables for its tables, Aes for the steps of
--                  a round and the key expansion, Aes.Cipher for blocks, modes and padding.
--   Sha            Peer/Encryptions/SHA256/sha256.cpp and .h: Sha for transform, Sha.Stream for init,
--                  update, final and toHashSha256, Sha.Fips for the hash as FIPS 180-4 describes it, with
--                  its constants computed from primes.
--   Socket         TCPSocket::receive of Peer/NetworkUnit/ServerComm/TCPSocket/TCPSocket.cpp.
--   Ice            the queues and datagrams of Peer/ICEConnection/ICEConnection.cpp: Ice.Outgoing for what
--                  is sent, Ice.Session for two connected peers; and the calls of
--                  receiveMessage by PeersConnectionManager::routePackets.
--   Republish      Peer/NetworkUnit/ServerComm/DataRepublish/DataRepublish.cpp.
--   Tests          the theorems at concrete inputs.
--
-- State is passed explicitly. Clocks, random keys, the hash function of FileIo and
-- MetaData.Creation, and what the server and the ICE library answer are arguments, nice_agent_send's
-- results and the datagrams that arrive among them, and so is what uninitialised or foreign memory holds where the code
-- reads it. IDs, hashes, keys and IP addresses are the numbers whose little-endian bytes the arrays
-- hold; in Aes a block and a key are their sixteen bytes. Machine integers are natural numbers with
-- their wrap-around written out. Maps and sets are lists, and a file is the list of its bytes.
--
-- Fuel. The loops that cut a file into pieces and a piece into blocks take a byte at least in each
-- round, so the size is enough fuel; the loop that reads the IDs of a user list reads a byte at
-- least, so the number of bytes is. The loop that answers a request for blocks may not end: it returns
-- nothing when its fuel is used up, and for the requests on which it ends one round more than there are
-- blocks is enough. A thread that waits for a message reads a frame, which is a byte at least, in each
-- turn that does not find one, so that one turn more than there are bytes on the stream is enough.
--
-- Not modelled: the opening of files and directories, system calls, failed writes, threads and locks (an
-- operation is one step, also where it lets go of a lock in between), how libnice makes a connection, the
-- command line; of the
-- handlers, the download loop, and their start and stop. Peer/out holds what a
-- build has generated.
pub mod Base
pub mod Bytes
pub mod Splitter
pub mod MetaData
pub mod Progress
pub mod Message
pub mod Tracker
pub mod Signal
pub mod Server
pub mod Chooser
pub mod BitField
pub mod Aes
pub mod Sha
pub mod Peers
pub mod FileIo
pub mod Handler
pub mod Socket
pub mod Ice
pub mod Republish
pub mod Tests
