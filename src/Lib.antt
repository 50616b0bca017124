-- ===== src/Lib.antt =====
-- quote-server keeps the order books of the products of the Coinbase exchange and publishes them to
-- its clients over ZMQ sockets. A message of the feed goes through these parts:
--
--   CoinbaseFeedProduct  orders a product's messages around the requests for its full book;
--   CoinbaseFeedMessageHandler  reads a message as a product change;
--   Market  queues the changes, and a thread hands them to the products in rounds;
--   Product, ProductChange, OrderBook  move the book through a batch of changes and publish it;
--   ClientService  answers the clients' requests and calls the market to (un)subscribe;
--   CoinbaseFeedClient  gives a message to its product, and a trade to the market;
--   EndpointProvider  says which products there are, and at which ports each is published.
--
-- Where each is modelled:
--
--   OrderBook.antt: include/OrderBook.hpp, src/OrderBook.cpp, include/Order.hpp, src/Order.cpp and
--     include/Side.hpp. A book is a record of the two vectors, and each operation a function of the
--     book. OrderBook/Orders has the searches in a vector, OrderBook/Unique that ids stay unique on
--     a side, OrderBook/View the map from side and order id to order that a book stands for, and
--     OrderBook/Lifecycle what an addition and a removal make together.
--   ProductChange.antt: include/product/ProductChange*.hpp, one constructor for each class, and
--     `updateOrderBook` by cases. ProductChange/Refines says what a change does to the map.
--   Product.antt: include/product/Product.hpp, include/Client.hpp. Product/Batches is about batches.
--   FeedProduct.antt: include/coinbase/CoinbaseFeedProduct.hpp and
--     src/coinbase/CoinbaseFeedProduct.cpp. FeedProduct/Steps makes the critical sections of the
--     three threads a step relation, whose interleavings the other child modules speak of;
--     FeedProduct/Bounds is about the numbers as 64-bit numbers, and FeedProduct/Request is the
--     request thread with RestTransport.antt (transport/src/RestTransport.cpp).
--   FeedMessageHandler.antt: src/coinbase/CoinbaseFeedMessageHandler.cpp. FeedMessageHandler/Wire
--     has the messages of the exchange as they are written, and FeedMessageHandler/Decode,
--     FeedMessageHandler/Depth, FeedMessageHandler/Ends and FeedMessageHandler/Named are about reading
--     them.
--   Market.antt: include/Market.hpp and src/Market.cpp, with a definition for each of the two critical
--     sections of `subscribe` and of a round of the thread. Market/Maps and Market/Clients are about its
--     maps after any calls, each of which runs to its end before the next, Market/Changes about a round of its thread.
--   ClientService.antt: src/ClientService.cpp, one round of the loop. ClientService/Guarded,
--     ClientService/Replies and ClientService/Malformed are about what a round can end in.
--     ClientService/Loop has the loop over its socket, a parameter, and ClientService/Ending is
--     about what ends it.
--   EndpointService.antt: transport/include/CoinbaseEndpointService.hpp; EndpointService/Ports is about
--     the ports.
--   Protobuf.antt: protos/qs_protos/Message.proto, the messages to the clients as records.
--   OrderBookPublisher.antt: include/product/ProductChangePublisherZMQ.hpp, the message that a book is
--     published in; OrderBookPublisher/Contents says what it holds.
--   ZmqPublisher.antt: transport/include/ZMQPublisher.hpp and the addresses that the publishers of
--     books and trades (include/TradePublisher.hpp) bind; ZmqPublisher/Addresses is about these.
--   Trade.antt: include/trade/ and src/coinbase/MessageToTrade.cpp; Trade/Reading is about the trades
--     that messages are read as and what is sent of them.
--   CoinbaseFeedClient.antt: include/coinbase/CoinbaseFeedClient.hpp and
--     src/coinbase/CoinbaseFeedClient.cpp, over WebsocketTransport.antt (transport/src). Its children
--     CoinbaseFeedClient/Routing, CoinbaseFeedClient/Delivers and CoinbaseFeedClient/Trades say whom a
--     message reaches.
--   System.antt: the market over the Coinbase feed, as server.cpp wires them, with a step for every
--     call, message, round and thread, and for each critical section of a subscription and of a round;
--     System/Served and System/Listens are about all its states. System/Pipeline is the way of a message from a product's queue to the market, with System/Replayed about what it
--     does to the books. System/Requests is about the client service over this system. Server.antt:
--     `main` of server.cpp.
--     System/Exchange describes the exchange's side of a product, a message and a full book for every
--     number, and System/Line makes that, the product, its message loop and the market one step
--     relation, in which messages get lost and a round's multimap may hand out the changes under a key
--     in any order. System/Merging, System/Synced, System/Fed and
--     System/Installed are about the queue and the full books that it is merged into,
--     System/Published about what is published, and System/Mirror, with its children, about the book;
--     System/Stale is about a full book that is too old, and System/Trading about the trades, from a
--     message of the feed to what is published.
--   Locks.antt: the guards that the calls of src/Market.cpp, src/coinbase/CoinbaseFeedClient.cpp and
--     src/coinbase/CoinbaseFeedProduct.cpp make, in order, one function for each. Locks/Steps has the
--     threads that make these calls, Locks/Order the order of the mutexes; Locks/Progress and
--     Locks/Deadlock say when some thread can go on, and when two never can.
--   Uuid.antt: src/utils/uuid.cpp; Uuid/Shape is about the form of the ids.
--   Console.antt: client.cpp, the requests of the console client and its reading of the replies;
--     Console/Program has `main` and the thread of the scenario, Console/Threads the other threads
--     with the flags and the queue that they share, and Console/Words how a trade is printed.
--     Console/Steps makes the threads' operations a step relation, for which Console/Wired has an
--     invariant; Console/Listening says which listening threads stop, Console/Delivery what is
--     printed, Console/Requests what is asked over a run, and Console/Conversation is about the
--     client and the service in turn.
--   ProductSubscriber.antt and FeedClient.antt: the two abstract classes between the client service,
--     the market and the feed, as interfaces. Json.antt and Base/Floating.antt: the interfaces of
--     nlohmann::json and of the floating-point type with `std::stod`, which the repository does not
--     hold; the laws that proofs use are the fields of `JsonLaws`, and Tests/Value satisfies them.
--
-- State is passed explicitly, and what may throw, abort or wait for ever returns a `Result` with the
-- fault. Numbers are natural numbers; the successor of the last sequence number wraps at 2 ^ 64.
-- Two definitions are on fuel: reading a message, whose fuel is compared with the depth of the JSON
-- value; and the decimal digits of a port, ten, as many as an `int` has.
--
-- Not modelled: the libraries for sockets, HTTP and protocol buffers, whose results are arguments of
-- the definitions; the random numbers of src/utils/uuid.cpp, of which only the ranges are assumed;
-- most of what is printed; time measurement, with the ring buffers of time stamps in client.cpp and
-- src/coinbase/CoinbaseFeedClient.cpp; how a command line is read. Critical sections of one mutex do not overlap, so each is one step of
-- System and System/Line, where those of a subscription and of a round interleave with the rest;
-- Market/Clients takes whole calls for its steps; Locks.antt, which is about the guards alone, leaves out that threads join others.
pub mod Base
pub mod OrderBook
pub mod ProductChange
pub mod Product
pub mod Json
pub mod FeedProduct
pub mod FeedMessageHandler
pub mod ProductSubscriber
pub mod EndpointService
pub mod ClientService
pub mod FeedClient
pub mod Protobuf
pub mod Trade
pub mod WebsocketTransport
pub mod CoinbaseFeedClient
pub mod Uuid
pub mod Locks
pub mod Market
pub mod OrderBookPublisher
pub mod Console
pub mod System
pub mod Server
pub mod ZmqPublisher
pub mod RestTransport
pub mod Tests
