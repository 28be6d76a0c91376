-- ===== src/Lib.antt =====
-- Total order multicast (ISIS) in C++: processes that multicast messages over UDP and deliver them in
-- one order. A sender sends its DataMessage to every process, each of which queues the message with a
-- proposed sequence number and acknowledges it; the sender announces the largest proposal in a
-- SeqMessage; a process delivers from the head of its queue what is final. This library models the
-- program from its source in src/ and states what makes it correct.
--
-- Parts and files:
--   Common     Booleans, lists over native numbers, results with the program's exceptions
--              (src/net_exception.h), and Common/OrderedSet for std::set with a comparator.
--              Common/Text has decimal numbers and std::stoi over strings as lists of bytes.
--   Message    src/message.h: the four structs. Message/Host: byte order, htonl and ntohl, loads and
--              stores of a uint32_t. Message/Wire: MessageTypeFromBuf, the decoders, and the encoders of
--              SendDataMsg, SendAckMsg, SendSeqMsg and SendSeqAckMsg, with the two round trips as
--              children. Message/Valid: the Valid functions.
--              Message/Print: src/message.cc, the text of the messages.
--   HoldBack   src/process.cc, class HoldBackQueue: Lookup, InsertUndeliverable, SetDeliverable and
--              the comparator of PendingMessage. Children: the order, the map, the delivery loop,
--              the invariant, and its preservation by the two updates; the queue as a set
--              (Contents, Split, Refinement).
--   Net        src/net.h and src/net.cc: addresses, operator<<, AddressWithDefaultPort, GetHostname.
--              Net/Hash: AHash, PMKHash and the equalities of the maps' keys, over std::hash, a
--              parameter. Net/Failure: src/net_exception.h, the texts of the exceptions.
--   Thread     src/thread.h: ThreadGroup, AddThread and JoinAll.
--   Udp        src/udp_conn.cc: CreateSocket, Client::Send, Client::SendWithAck and Server::Listen over
--              the answers of the operating system, given as lists of arrivals. Udp/Socket:
--              SocketAddress over a name service, the constructors of Client and Server, WaitBackoff,
--              and what a receive call's errno means to the code. Udp/Mutex: several threads that share
--              a client and its mutex, as a step relation.
--   Process    src/process.cc, class Process: the counter, HandleDataMsg, HandleSeqMsg, the callback
--              and server of TotalOrder. Children: the invariant, its preservation, the order of
--              deliveries, progress, integrity, retention, replays, the agreement of two processes,
--              and what holds for hostile datagrams (Robust).
--   Sender     src/process.cc: ClientsForProcessList, ClientForId and the sender thread of
--              LaunchMulticastSender with its two phases. Sender/Launch: LaunchMulticastSenders and
--              TotalOrder, the threads that they add and the destructor that joins them.
--   Network    src/process.cc: a group of processes together. Sender threads, servers and the network
--              are interleaved as a list of actions; a message that was sent may arrive late, more
--              than once, out of order, or never. Children: the invariant of a process in a group, its
--              preservation by the two handlers, what a sender thread decides, the invariant of the
--              group, and the logs of two processes.
--   Main       src/main.cc: GetProcesses, CheckProcessId, GetProcessId, and main over what the parser
--              of include/args.h makes of the command line. Main/Help: the usage texts and the flags.
--   Log        src/log.h: the logger. The other modules leave out what they log.
--   Tests      concrete processes, messages and arrivals to which the theorems are applied.
--
-- State is passed explicitly: a Node is a Process with the datagrams that its server has sent and the
-- messages that it has delivered. A datagram that the server receives comes with the client that is made
-- for its sender. Fallible code returns a Result that is a value or one of the exceptions. A C++ uint32_t
-- is a native number with the wrap-around of `++` and `<<=` written out. Loops over lists recurse on the
-- list; the receive loops recurse on the arrivals, and stay blocked or waiting when these end, so there
-- is no fuel. A field that is read before it was written has the value `uninit` of the host, which is a
-- parameter of every theorem.
--
-- Not modelled: the random number generators (the draws are parameters), std::hash (a parameter),
-- and the vendored include/args.h. Outside of Udp/Mutex, a sender thread is modelled on its own.
-- HandleDataMsg writes through a disengaged optional; the model has the acknowledgement that it means
-- to build.
pub mod Common
pub mod Message
pub mod HoldBack
pub mod Net
pub mod Udp
pub mod Thread
pub mod Process
pub mod Sender
pub mod Network
pub mod Main
pub mod Log
mod Tests
