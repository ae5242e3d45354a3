-- ===== src/Lib.antt =====
-- The programs of this repository that keep state, and what makes them correct.
--
-- Three programs are modelled. The stock exchange
-- (project4_stockexchange/docker-deploy/matching-engine, database.cpp) answers requests to create
-- accounts and symbols and to place, cancel and query orders, over four PostgreSQL tables. The
-- delivery back end (project5_miniUPS/docker-deploy/backend) stands between a shop, Amazon, and a
-- simulated world of trucks, with its own tables and sets of numbers. The HTTP proxy
-- (project2_HTTPproxy/docker-deploy/src) keeps responses in a least-recently-used cache.
--
-- Prelude has the shared names, Boolean tests (Prelude/Tests), lists (Prelude/Lists) and signed
-- integers over the native numbers (Prelude/Int).
--
-- Exchange is the stock exchange. Exchange/Tables has the rows of createTables, the sequences
-- behind its two BIGSERIAL columns, and the orders of its ORDER BY clauses; Exchange/Columns the
-- types of its columns. Exchange/Creation has insertAccount, insertSymbol and handle_creation;
-- Exchange/Orders insertOrder and cancelOrder; Exchange/Matching match_orders, execute_trade and
-- update_order_status; Exchange/Requests queryAll and handle_transactions, whose commit and
-- roll-back are `finish`, on a request that is parsed. Exchange/Decimal has format_decimal, on a
-- value in millionths. Exchange/Xml has the lines of a request and the parameter `Xml`, for what
-- the code takes from tinyxml2 and std::stod; Exchange/Client has handle_client_request,
-- handle_creation and handle_transactions on the bytes of a request, where an exception that
-- nothing catches ends the process, and Server::handleClient (server.cpp); Exchange/Answers and
-- Exchange/Replies the text of the answers, which Exchange/Nesting has a reader for; Exchange/Main
-- main (main.cpp) and runServer, with the clients one after another; Exchange/Threads the threads
-- of runServer, as steps of the one connection that they share. A statement that breaks a
-- constraint is `none`, or an aborted session. The parameter `Server` stands for PostgreSQL and
-- libpqxx: the time, the order of the rows of a SELECT, how ORDER BY sorts them, and whether a
-- commit of a failed transaction raises. The laws are in Exchange/Rows and Exchange/Ids (rows and
-- keys), Exchange/Rule (induction over the loops of match_orders), and in the modules that the list
-- below names. Shares and money are whole numbers, so that the source's doubles are exact on them;
-- the sequences stay below 2^31, and a symbol ends in no space. The INSERT of execute_trade has no
-- failure: the symbol of a sell is in SYMBOL, whose VARCHAR(20) it fits, and its price is the limit
-- of an order.
--
-- Ups is the delivery back end. Ups/State has the globals of main.cpp, the rows and the messages;
-- Ups/Send the receipt tests, acks and send loops of message.cpp, handleworld.cpp and
-- handleamazon.cpp; Ups/Trucks getTruckTopickup (database.cpp) and initWorld (handleinit.cpp);
-- Ups/Amazon handleamazon.cpp; Ups/World handleworld.cpp; Ups/Wire the messages on the sockets
-- (message.hpp), with what protobuf does as the parameter `Protobuf` and a socket as the blocks
-- that `read` gives; Ups/Main handleReceive and main (main.cpp), with clearTables (database.cpp),
-- connectedWorld and initAmazon (handleinit.cpp), where a round of handleReceive is given what
-- select reports. A handler ends in a state, waits on, or crashes (`Outcome`). The parameter `Env`
-- has the time, the order of rows, and for each message number the rounds of its send loop: whether
-- the sending succeeds, and what other threads do to the next number and the awaited ones before
-- and after the call. A loop is recursion over those rounds, and a loop that has none left waits.
-- Sequence numbers are ints where the source's sets hold ints, as the low 32 bits of an int64.
--
-- Proxy is the HTTP proxy. Proxy/Lru has LRUCache.hpp: its list as nodes with addresses, so that an
-- iterator to a node that is gone is `none`. Proxy/Text has std::string as bytes, Proxy/Request the
-- constructor of Request, Proxy/Process the statics of proxy.cpp and a monad for what can return,
-- wait for good, or crash; Proxy/Freshness has shouldUseCache, sendCachedResponseToClient,
-- handleCachedResponse and printCacheLog; Proxy/Relay receiveWithContentLength,
-- handleConnectRequest and check502Response; Proxy/Response the parsing of response.cpp and
-- time.hpp; Proxy/Fetch getLength, handleGetRequest and forwardRequestToServer; Proxy/Post
-- handlePOSTRequest; Proxy/Handle handleRequest; Proxy/Run run (proxy.cpp), with its threads one
-- after another; Proxy/Redirect the redirection functions, which nothing calls. A loop that calls
-- recv is recursion on what its calls give.
--
-- Proxy/Recency has a list of the most recently used keys, as what LRUCache promises, and sequences
-- of calls on both.
--
-- Net has how the three programs open their sockets, on what the calls of the system answer:
-- startServer, acceptClientConnection and buildClient (socketutils.hpp), and createHost,
-- createClient and acceptConnection of the two server.cpp.
--
-- Not modelled: the texts that protobuf makes, tinyxml2 and the code that protoc generates, the
-- Django applications.
pub mod Prelude
pub mod Exchange
pub mod Ups
pub mod Proxy
pub mod Net
