-- ===== src/Lib.antt =====
-- A model of a small cloud platform, a replicated key-value store and the files, the mail and the web
-- server over it, with the theorems that make it correct.  Paths are from the root of the repository.
--
-- A data server (kvstore/) keeps a table of rows of cells in memory.  Clients connect to it, and a
-- worker reads their lines and answers GET, PUT, CPUT, DELETE and LIST.  Each change is written to
-- a log first; a primary then passes it on to the replicas of its node.  From time to time the
-- table is written to a checkpoint, and the log is emptied.  A server that starts again reads
-- checkpoint and log, and asks the primary for what it missed.
--
-- Shared:
--   Base         library names, Boolean tests and lists over the native numbers
--   Text         std::string as a list of bytes: find, rfind, substr with the wrap of size_t;
--                Text.Search, Text.Order and Text.Lines have the laws, and getline
--   Map          std::map as a list in the order of its keys; Map.Laws
--   Number       long, its printed form and stol; Number.RoundTrip
--   RowCol       the names <row> <col> of a line, read as parse_command does; RowCol.Laws
--   Outcome      what a piece of code does: it returns, takes the process down, or waits for ever
-- The data server:
--   FileTool     kvstore/filetool.cc: the files as a map from path to contents; addresses
--   Connection   kvstore/Connection.cc (kvstore/master/masterConnection.cc has the same code):
--                do_read, do_read_data, do_write over a list of what the kernel answers
--   ServerState  kvstore/serverState.h, kvstore/serverState.cc: updateSeq, increseSeq and the rest
--   BackStore    kvstore/backStore.cc: push, poll, recover, reconnect; BackStore.Links says that no
--                null connection is followed, BackStore.HoldBack what a recovering replica gets
--   DataServer   kvstore/server.h, kvstore/cell.h and the globals that a worker shares
--   Checkpointing  kvstore/checkpointing.cc: writeToDisk, recoverCheckpoint, recoverLog,
--                lastLogSeq, findVersionNum; Entries, Replay and Recovery have the round trip
--   Worker       kvstore/Worker.cc: Input (extract_command, strnicmp, the waiting loops), Log
--                (putToLog, deleteToLog), Handlers (the commands of clients), Recovery (those of
--                the master and of a replica that starts again), Dispatch (run);
--                Invariant, Keeps, KeepsSwap, KeepsLinks and KeepsRun: what every command keeps;
--                Effects and Deletion: what a change does; Log.Laws: what stands in the log after
--                it; Waiting: the waiting loops
--   ThreadPool   kvstore/ThreadPool.cc (kvstore/master/masterThreadPool.cc has the same code): the queue of
--                connections and the threads, as events in any order; Traces: what becomes of the
--                connections; ShutDown: what closeAll does to them
--   StartUp      kvstore/dataserver.cc: a server that starts again: contactServer, receiveCheckpoint,
--                receiveLog, recoverProcess and what main does around them; Log has the way of a
--                log from the primary to it
-- The master, which tells clients the node of a row, and watches the primaries:
--   Master       kvstore/master/masterWorker.cc: WHERE, the node with the least rows; Nodes, Counts
--                and Where have what it keeps; Commands has the other commands and the main loop,
--                with its fixed buffers; Heartbeat is that of kvstore/master/master.h and the
--                round of kvstore/master/master.cc
--
-- The files of users:
--   Storage      storage/Storage.h, storage/Storage.cc: the files and folders of a user.  Wire has the
--                requests on the wire (Answers: a worker's answer is read); Records the line of a
--                file in its folder; Changes the changes of a folder by compare and swap; Files and
--                Edits the operations; KeyValue the laws of a store that keeps one cell for each
--                index, and Additions, Uploads and Downloads what they do over such a store; MasterConnect is
--                storage/masterConnect.cc, the question to the master (Address: the address in its
--                answer)
--   FileHandler  storage/fileHandler.cc: a file as hexadecimal text, and back
--   CText        strcasecmp, strncasecmp and strtok (Tokens)
--
-- The mail of users:
--   Mail         webmail/.  Wire is webmail/utils.cc: a request and its answer (Answers); HashList
--                the list of a user's mails; Client is webmail/client.cc (Reading: a mail is read
--                back); Queue is webmail/deliver.cc, the mails for other hosts (Growth); Session,
--                Delivery and Commands are webmail/server.cc: the commands, the end of the data and
--                the loop of a connection.  Session.Diagram has the states and what holds in them,
--                Delivery.Moves and Commands.Safety that each command keeps to it
--
-- The web server, through which users come to their files and mails:
--   Web          frontendServer/frontend.cc, frontendServer/request.cc, frontendServer/response.cc,
--                frontendServer/util.cc.  Request reads a request in fixed arrays (Rounds, Get);
--                Response chooses the handler of a path and has the loop over the connections; the
--                handlers stand in Account (who is signed in), Folders (files), Letters (mail) and
--                Admin (the servers), over the state, the storages and the system of Site; Reply
--                writes the answer, Template fills in a page (Laws), Listing makes the lists, Escape
--                decodes paths and forms (RoundTrip), Paths reads names and numbers out of them
--                (Uploads).  Seats says that every session has its storage (Files, Letters, Run),
--                Access who gets what (SignIn); Storages puts the storages of Storage in for those
--                of Site (Upload)
--
-- Services beside it:
--   LoadBalancer  frontendServer/load_balancer.cc: the queue of front-end servers
--   StateCheck   state/StateCheck.cc: the list of the servers, as the master writes it (States) and as
--                it is read (Listing)
--
--   Tests        a small server, a small master, a table as the store, a mail session, a web server
--                and small services, on which the theorems are applied
--
-- A command is a function from the worker's state (table, server state, disk, replicas, connection,
-- stream) to an Outcome of it.  A std::out_of_range or std::invalid_argument that nobody catches, a
-- null dereference and a write out of bounds are `abort`; a read for which no input is left is
-- `blocked`.
--
-- Bounds and fuel: the loops of `run` and the waiting loops take fuel; a waiting loop has one unit
-- for each byte and each event that is left to read, as each round takes one.
-- A run has the fuel that it is given, and so have the loops that try a compare and swap again.
-- size_t is 64 bits wide and wraps.  The sequence number is a natural number, as it starts at 0
-- and updateSeq takes the larger of two.
--
-- The loop that reads a request has fuel, and a GET needs a round for each piece and each line;
-- replace has fuel for each byte of its text.
--
-- Not modelled: the mutexes (a command runs whole), the threads of the web server (its connections
-- are answered one after the other), the debug output, the memory that is freed, the options, sockets
-- and accept loops of the servers, and the reading of their files of addresses
-- (ServerState::init, init of kvstore/master/master.cc).  The processes that the web server starts,
-- its clock, its pages and the order in which an unordered_map is walked are parameters.  Of the
-- storage client, the connection to the primary is given; of the mail server, the sending of a mail
-- to another host (handle_forward, sendto_smpt_server) is an operation of an interface.  inet_ntop,
-- inet_pton and connect are parameters.  The laws of KeyValue, and those of ListStore in
-- Mail.HashList.Append, are assumed of the store: that the data server of Worker keeps them as it is
-- seen through the client is not shown, and does not hold where its PUT follows a null pointer.
-- The mail server and client read a chunk up to its first zero byte; what the code leaves in its
-- buffer behind that is not modelled.
pub mod BackStore
pub mod Base
pub mod CText
pub mod Checkpointing
pub mod Connection
pub mod DataServer
pub mod FileHandler
pub mod FileTool
pub mod LoadBalancer
pub mod Mail
pub mod Map
pub mod Master
pub mod Number
pub mod Outcome
pub mod RowCol
pub mod ServerState
pub mod StartUp
pub mod StateCheck
pub mod Storage
pub mod Tests
pub mod Text
pub mod ThreadPool
pub mod Web
pub mod Worker
