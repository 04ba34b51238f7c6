-- ===== src/Lib.antt =====
-- The programs of the cloud computing lab: a key-value store replicated by two-phase commit and one
-- replicated by a leader (lab3), and solvers of Sudoku puzzles (lab1).
--
-- The store (lab3/src_2pc) has one coordinator and several participants. A client sends a RESP array
-- to the coordinator, `parseClientMsg` splits it, and a handler runs the operation: SET and DEL by a
-- prepare request to every connected participant, a wait for the votes, and a COMMIT or an ABORT with
-- a wait for the DONEs; GET by one prepare request to one participant after the other. A participant
-- applies a write at the prepare request, keeps what undoes it in its rollback log, and rolls back on
-- ABORT or when another transaction comes.
--
-- The second store (lab3/src_raft) is a beginning of Raft. Every node listens on one socket, and
-- `HandleSockfd` tells by the text whether a client or a node has sent it. The leader answers clients
-- and sends a commit message for a write to every other node; the others name the leader to a client.
-- A follower whose timer runs out once asks the others for their votes.
--
--   Base       shared types and lemmas: native numbers, lists, results with the faults of C++ (a read
--              out of bounds, an exception nobody catches, an assertion), integers
--   Text       std::string as a list of bytes, and to_string, stoi, getline and operator>> on it
--   TwoPhase   lab3/src_2pc
--     Message      MessageProcessor.cpp: parseClientMsg, parseClusterMsg, and the get...Msg functions
--                  under their names without the get; Config for parseConfigFile; the round trips in
--                  RoundTrip and Client
--     Database     the unordered_map of a participant, as an association list
--     Receive      getMessage, the loop over recv, which both sides write out alike
--     Participant  Participant.cpp: handlePreparePhase, handleCommitOrAbortPhase and rollBack; Session
--                  has handleConnection, as one function per phase and message, and the loop of
--                  startup; Transaction, Atomicity, Connection and Wire have the theorems
--     Coordinator  Coordinator.cpp: the operating system is the record Network (socket, connect,
--                  select, recv and the random ids, asked at the time of a counter), and the vectors
--                  participantAddr, participantSocket and response are one list of Peer; Waiting is
--                  the loop that waitForPrepared and waitForCommitOrAbort share, Prepare and Decide
--                  what they do not share, Handle the handlers; Steps, Voting, Verdict, Start, Replies,
--                  Sent and Success have the theorems
--   Raft       lab3/src_raft
--     Message      MessageProcessor.cpp: parseClinetMessage and parseConfigFile
--     Node         Node.h and Node.cpp: State has the fields and the messages to other nodes, Store the
--                  handlers of requests and commit messages, Vote the timer, the heartbeats and the
--                  votes, Node itself HandleSockfd, the constructor and main. The threads of the timer
--                  and of the time-out are fields that tell whether they run
--     Steps        a node among others, as a step relation: a message, a wake-up of the timer, the
--                  notice of a time-out; Running, Leadership and Votes have the theorems on these
--                  steps, Election and Exchange those on messages to the other nodes and on a
--                  request for votes with its answer, Replication and Requests those on writes and
--                  on clients' requests
--   Sudoku     lab1/src/Sudoku/TearcherCode: Neighbors has neighbor.cc, Solver has sudoku_basic.cc and
--              sudoku_min_arity.cc (which differ in one call), Cache has sudoku_min_arity_cache.cc,
--              Solved has solved() and Program main.cc; Table, Backtrack, Rules, Spaces, Search, Solutions,
--              Ready, Decide, Agree, Input and Answers have the theorems on the solvers, and so have the
--              modules below Cache: Flags, Marking, Held, Hold, Init, Choice, Guess and Refines; Tally,
--              Groups, Once, Accepts and Outcome have those on solved and on the loop of main.cc
--   Dance      the dancing links of lab1. Links has the fields of the nodes, cover and uncover, Grid the
--              constructor of Dance and Solve its search, all of
--              lab1/src/Sudoku/TearcherCode/sudoku_dancing_links.cc; Dlx has the struct DLX of
--              lab1/src/Sudoku/DLX.h with GetId and Insert (lab1/src/DLX.h is the same code). Hide,
--              Rings, Loops, Cover, Recover and Candidates have the theorems; Line is the puzzle of a line
--              in lab1/src/Sudoku/3.cpp
--   Pipeline   lab1/src/Sudoku/3.cpp: its queues and flags, and the steps of its four threads; Order and
--              Ends have the theorem
--   Tests      runs on concrete inputs
--
-- Conventions. The fault of a C++ function is a value, and the state behind it is not kept. The
-- loop over a connection has fuel for its rounds. The waiting loops of the coordinator have fuel
-- because the source has no bound there: a participant that accepts each new connection and breaks
-- it again keeps it waiting. Out of fuel, no reply is given, so nothing is claimed. The solvers
-- recurse as deep as there are spaces left, which is their fuel. The contract of the operating
-- system (IsKernel) is that a socket that does not fail is a descriptor that is not open, that
-- connect succeeds only on a positive descriptor, and that select names only watched descriptors. A
-- recv of the coordinator that has nothing to receive never returns, which is a fault. Integers are
-- those of the source; ids of transactions are in the range of an int where stoi reads them.
-- Messages are printed as bytes, and nothing is assumed of keys and values but what a theorem
-- names.
--
-- A handler and a wake-up of a node's thread are single steps. The threads of the pipeline wait for
-- each other's locks, and for nothing else: the worker pushes an answer without the lock of the
-- output, so the push and the printing begin and end in steps of their own, and when they overlap the
-- field `raced` is set, behind which any step is possible. That the condition variables wake a thread
-- is not modelled, so nothing is claimed of a run that stands still.
--
-- The links of the dancing links are functions of the number of a node, as the source has one array of
-- nodes; their loops follow the links and end where the links say, so each has a number of rounds. In
-- cover and uncover one round more than the ring has nodes is enough; of the rounds of the searches
-- nothing is claimed. Sizes are integers without a bound, and so are the arities.
--
-- Not modelled: sockets, option parsers and pauses, the start-up of lab3/src_2pc, the first version in
-- lab3/src, the earlier versions of lab1/src/Sudoku/3.cpp (lab1/src/3.cpp and lab1/src/Sudoku/DLX.cpp),
-- and the HTTP server of lab2, which is in C.
pub mod Base
pub mod Text
pub mod TwoPhase
pub mod Raft
pub mod Sudoku
pub mod Dance
pub mod Pipeline
mod Tests
