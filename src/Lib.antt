-- ===== src/Lib.antt =====
-- Verification of the game server (source/src): models of the server's own logic, translated from
-- the C++ code, and theorems about them.
--
-- Parts and files:
--   Common           shared notation, lists measured by native numbers, machine words.
--   WaitList         source/src/waitlist.cpp: the queue of a full server. The two std::lists are
--                    lists; an iterator is a place in one of them; clientLogin returns an Outcome.
--                    Cleanup, Search, Admission and Newcomers hold the proofs.
--   WildcardTree     source/src/wildcardtree.cpp: the tree of names. A node is a data type; pointers
--                    into the tree are the recursion of each loop. Keys, Names, Shape, Removal and
--                    Completion hold the proofs; a tree is specified as a set of names.
--   Xtea             source/src/xtea.cpp: the cipher. Rounds is one block, Blocks the drivers,
--                    Roundtrip both directions together.
--   Party            source/src/party.cpp, the requests of source/src/game.cpp and the pointers of
--                    source/src/player.cpp. Players and parties are numbers; State holds what the
--                    calls write, Sharing the flags of shared experience, Requests the calls of
--                    players. Counting, Consistency, Ending, Departures, Withdrawal, Actions, History
--                    and Levels hold the proofs.
--   Trade            source/src/game.cpp and player.cpp: the trade of two players. Players and items
--                    are numbers, and the moves of items are noted. Requests asks for a trade, Accept
--                    ends one with what its callers do, History has the requests in any order.
--                    Entries, Consistency, Closing, Starting and Accepting hold the proofs.
--   Experience       source/src/player.cpp: experience and levels. Loops, Gain and Loss hold the proofs.
--   Container        source/src/container.cpp, the weights of source/src/item.cpp and getParent of
--                    source/src/depotchest.cpp, inbox.cpp and reward.cpp. Items are numbers with
--                    parents in a world of objects; what Items reads from files is a parameter.
--                    Sums, Parents, Enough, Weights and Links are the steps, Adding, Removing, Changing
--                    and Replacing (with Swaps) the proofs; Queries asks before a move, and its Ranks
--                    and Takings hold what follows. getParent of a depot chest, an inbox and a reward
--                    looks past what encloses them, so that the containers there do not count what
--                    changes in them. A shape of a world marks containers in which none of these
--                    stands, however deep, and gives each container a height; a sound world is one in
--                    which lists and parents agree, and the weights of the marked containers.
--   Position         source/src/position.h: places of the map and their order.
--   NetworkMessage   source/src/networkmessage.h and .cpp: the message buffer. Bytes is memcpy,
--                    Written and Positions the round trips, Bounds the memory safety.
--   Adler            source/src/tools.cpp: adlerChecksum. Sums holds the proofs.
--   Protocol         source/src/protocol.cpp, outputmessage.h and connection.cpp: the frames of
--                    messages, from NetworkMessage, Xtea and Adler. Copies and Frames have the bytes
--                    of each operation, Sending and Receiving the directions, Reading both together.
--   FileLoader       source/src/fileloader.h and .cpp: node files. Marks has the format by itself,
--                    Roundtrip and Files the parser, Streams the streams of properties.
--   Ban              source/src/ban.cpp: the throttle of connections; Throttle holds the proofs.
--   Scheduler        source/src/scheduler.cpp: the queue of events as a state machine, a step for
--                    each section under its lock, and one for the hand-over of the event that the
--                    thread has in hand, without the lock. Punctual and Stopped hold the proofs.
--   Dispatcher       source/src/tasks.cpp: the list of tasks and the thread that carries them out;
--                    Order holds the proofs.
--
-- Conventions: std::size_t and the fixed widths are native numbers with the wrap written out where
-- the code can reach it. Time is an argument. A std::map is a list with one entry for each key.
-- Undefined behaviour of C++ is an outcome of its own where the code can reach it.
--
-- Fuel: the driver of Xtea counts the instances of the template; its fuel is the initial block size,
-- which is enough since each instance has at most half the block size, rounded up.
--
-- The outer loop of adlerChecksum takes the number of bytes as fuel: each round takes at least one.
--
-- The loops of updateItemWeight and queryAdd over the parents, and getParent, take as fuel a bound of
-- the depth of containers; updateItemWeight is `none` where that is not enough, and the theorems show that
-- more fuel than the height of the container is enough (Container.Enough for getParent).
--
-- The loop of addExperience takes fuel; one more than the experience that the player then has is enough,
-- since each round raises the next bound or ends the loop.
--
-- Not modelled: the scripting interface (source/src/luascript.cpp), the network and database threads,
-- the XML files, what the nodes of a map file mean, and the game rules outside of the parts above.
pub mod Adler
pub mod Ban
pub mod Common
pub mod Container
pub mod Dispatcher
pub mod Experience
pub mod FileLoader
pub mod NetworkMessage
pub mod Party
pub mod Position
pub mod Protocol
pub mod Scheduler
pub mod Trade
pub mod WaitList
pub mod WildcardTree
pub mod Xtea
