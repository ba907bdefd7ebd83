-- ===== src/Lib.antt =====
-- yaIRCd, an IRC server in C: models of its data structures and of its message handling, with the
-- theorems on them.
--
-- The server runs one thread for each client. A thread reads what its socket delivers into the
-- buffer of the client, takes the complete lines off it, splits each into prefix, command and
-- parameters, and looks the command up in a trie. The clients are kept by nickname in a word list:
-- a trie behind a mutex, with a further mutex in each element. Messages for another client are put
-- in that client's write queue, which its own thread flushes.
--
--   Prelude    shared names of the libraries, Boolean tests, and lists indexed by native numbers
--   Memory     malloc, free and pthread_mutex_init: which allocations succeed is a list of answers,
--              and allocated and freed blocks are counted
--   Trie       src/trie/trie.c and src/include/trie.h. Node is `struct trie_node`, with its array of
--              edges as Edges; every function has the name of the C function, takes the trie and the
--              heap and returns them changed. Invariant and Keys hold the well-formedness and the
--              abstract keys, Laws and Unchanged the theorems, Filled, Reached and
--              Alike lemmas on data, on walks and on spellings. Prefix is the search by prefix, one
--              match for each call, with its stack as a list
--   WordList   src/lists/list.c. A call takes the locks that the thread holds and gives back those
--              that it holds then; the outcome `none` is a thread that waits for itself, or a read
--              through NULL. Update holds the functions that change a list; Locking, Map, Deletion and
--              Destroy hold theorems
--   ClientList src/clients/client_list.c: the alphabet of nicknames, and in Clients the list of
--              clients over WordList
--   ReadMsgs   src/msg/read_msgs.c: next_msg and read_data on the buffer of a connection. Lines is
--              the independent description of a stream as its lines; Stream and Session hold the
--              loop around both functions
--   WriteQueue src/msg/write_msgs_queue.c: the ring of 512 messages. Fifo is the specification, a
--              bounded queue; Refine and Blocks hold the theorems
--   ParseMsg   src/msg/parsemsg.c: the parser, which works in place; a pointer is an index.
--              Placed compares a message within the buffer with the message on its own; Printed
--              holds messages before they are printed, and their text
--   Client     src/clients/client.c: manage_client_messages around the reader and the parser, with the
--              handlers as parameters on a state of their own. Messages, Loop and Session relate it to
--              the lines of the stream; Ping is the timer, as a step relation on events
--   Registration  src/msg/interpretmsg.c: the handlers of NICK, USER and PONG over the list of clients,
--              and what destroy_client does to it. A field `char *` is NULL, a string of its own, or
--              freed; the outcome `undefined` is a use of NULL or of a freed block. Owned and Keys hold
--              the lemmas on the list, Invariant what a client keeps true
--   Channels   src/channel/channel.c: the list of channels holds addresses, and a channel at an address
--              its users. Leave, Join and Talk hold the functions, Names the names, Leaving, Joining,
--              Forgetting, Elsewhere, Visit, Parting, Places and Quit the theorems. The client whose
--              thread runs is Member; another client is its address, and a message for it is put in
--              `queued`.
--              Handlers holds the handlers of JOIN, PART, LIST and PRIVMSG of src/msg/interpretmsg.c,
--              Delivery who gets a message to a channel
--   Whois      src/msg/interpretmsg.c: the channels of a client in the reply to WHOIS, over
--              cmd_print_reply of src/msg/msgio.c; Bounds holds the theorems
--   Cloak      src/cloak/cloak.c: the names that hide addresses. SHA1 and MD5 are parameters. Bits holds
--              laws of | and ^, Sample, Hex, Address and Domain the theorems
--   ServerInfo src/serverinfo.c: read_motd_file on a file that is a list of characters, and in Config
--              the configuration; a field that was never written is none, and a
--              use of a group that is missing is undefined. Chunks, Motd and Loaded hold
--              the theorems
--   Connection src/clients/client.c: create_client and new_client up to the event loop, with the
--              blocks, event loops and queues that exist. Created and Begin hold the theorems, on
--              the invariants of ReadMsgs, WriteQueue, Channels, Registration and Client.Ping
--   Server     src/yaircd.c: accept_connection and init_data_structures; Accept and Boot hold the
--              theorems
--   Commands   src/msg/interpretmsg.c: the tables of commands, their tries and interpret_msg, whose
--              outcome is the handler or the error reply that it calls
--
-- Characters are the numbers 0 to 255, an `int` that the program keeps small is a natural number,
-- and three machine integers wrap: the `unsigned int` of downsample at 2 to the 32, the `unsigned
-- char` position in trie.c at 256, and the `size_t` that WHOIS compares with at 2 to the 64. The
-- loops over a character array run on the number of characters left in it, which is enough: each
-- round moves one character on. The loop of a session over next_msg runs on 513 rounds, since each
-- round takes a character off a buffer of 512. The search by prefix runs on as many rounds as
-- there are trie nodes left to visit, and one; reading the message of the day runs on one round
-- more than the file has characters, each of which takes a character off it.
--
-- Times are natural numbers of some unit, and the arithmetic of `ev_tstamp` on them is exact: the
-- fractions and the negative numbers that a configuration file could give for them are left out.
--
-- Not modelled: the handler of QUIT, the handler of WHOIS but for the list of channels in its reply,
-- and the other resources that destroy_client gives back (src/msg/interpretmsg.c,
-- src/clients/client.c); the order in which ircd_boot sets up sockets, SSL and the event loop
-- (src/yaircd.c), and the formatting of replies, which are calls of libraries. What OpenSSL,
-- libconfig, libev and the sockets report is a parameter. The effect of several threads at a time is
-- not modelled: a call runs to its end.
pub mod Channels
pub mod Client
pub mod ClientList
pub mod Cloak
pub mod Commands
pub mod Connection
pub mod Memory
pub mod ParseMsg
pub mod Prelude
pub mod ReadMsgs
pub mod Registration
pub mod Server
pub mod ServerInfo
pub mod Trie
pub mod Whois
pub mod WordList
pub mod WriteQueue
