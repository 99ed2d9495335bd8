-- ===== src/Lib.antt =====
-- A model of the TypeScript implementation of interop (js/src): messages of MIME-style headers and a
-- body that processes exchange over web sockets, and the parts from which its client is built.
--
-- The parts. A web socket that connects again (js/src/PersistentWebSocket.ts) tells its listeners
-- (js/src/ConstrainedEventTarget) of what it receives. A connection reads each blob as a message
-- (js/src/parseMessageFromBlob.ts), hands it to readers through an exchange of promises (js/src/Exchange)
-- and writes messages as blobs (js/src/createBlobFromMessage.ts). A dispatcher (js/src/Dispatcher) calls
-- the handlers that subscribed to a message. A reactor (js/src/RpcClient/RpcReactor.ts) writes requests to
-- a connection and reads it for the responses, which it tells by their ids, and for events.
--
-- The files.
--   Base          names of the libraries, Boolean tests, lists, integers and texts over native numbers
--   Text          the string functions that the code uses, and canonicalizeKey of js/src/utilities.ts;
--                 Text/Lines has the laws of trim and split, Text/Words and Text/Keys when two keys
--                 are the same
--   Prototype     the names of Object.prototype
--   Header        js/src/Header.ts
--   Headers       js/src/Headers.ts: objects as lists of properties, with JavaScript's order of keys
--   Number        parseInt, and toString of a length
--   Message       js/src/Message.ts
--   Wire          createBlobFromMessage, endsWithDoubleLineBreak, extractHeadersFromBlob; Wire/Chunk and
--                 Wire/Scan have the scan by chunks, Wire/LineBreaks and Wire/Fields what a header
--                 block looks like
--   Parse         parseMessageFromBlob; Parse/Lines, Parse/RoundTrip, Parse/Errors and Parse/Names
--                 have its theorems
--   Promise       newPromiseTriplet: promises as numbers, and a table of how they were settled
--   Exchange      newExchange; Exchange/Fifo and Exchange/Contents have its theorems; Exchange/Promises
--                 is createPromiseExchange, with its theorem in Exchange/Promises/Delivery
--   Events        createConstrainedEventTarget; Events/Loop is its loop over listeners, Events/Laws and
--                 Events/Dispatch have its theorems
--   Dispatcher    createDecodingDispatcher
--   Socket        createPersistentWebSocket; Socket/Connections has its invariant, Socket/Closing what a
--                 close and a loss leave, Socket/Handlers that each handler keeps the invariant;
--                 Socket/Invariant, Socket/Retries and Socket/Listeners have its theorems
--   Messages      js/src/messages.ts and the guards on messages; Rpc uses it
--   Rpc           createRpcReactor, createRpcMessageBase and createRpcRequestMessage; Rpc/Calls,
--                 Rpc/Rounds, Rpc/Responses and Rpc/Ids have its theorems
--   Rpc/Client    its calls from the content to the value of the response; Rpc/Client/Answers has their
--                 theorem
--   Rpc/Methods   createRpcMethods; Rpc/Methods/Laws has its theorems
--   Rpc/Events    its events, given to a dispatcher of EventDispatcher
--   Conn          createWebSocketConn and createWebSocketWriter over Exchange/Promises, Parse and Wire;
--                 Conn/Listening is the listener with the messages that are being parsed; Conn/Closing,
--                 Conn/Late, Conn/Listening/Order and Conn/Transport have their theorems;
--                 Conn/Sockets is a connection on a persistent socket, and Conn/Sockets/Closed has
--                 its theorem; Conn/Argument is the choice of a socket and its options
--   Values        JavaScript's values, and the guards isHeaders, isMessage, isMarshaler, isContentType
--   Create        createMessageBase; Create/Overloads has its theorems
--   Content       js/src/marshalers.ts and ContentTypes.ts, over an environment with JSON;
--                 Content/Literals is one
--   Decoder       js/src/createDecoder.ts; Decoder/Laws has its theorem
--   Delivery      content from createMessage to decode; Delivery/Sendable and Delivery/Content have its
--                 theorems
--   Subscribers   createDecodingEventDispatcher and createNamedSubscribers over Dispatcher;
--                 Subscribers/Routing has their theorem
--   EventDispatcher  createRpcEventDispatcher, createEventDispatcher and createDispatcher; its parts
--                 Overloads and Delivery have its theorems
--   Session       the read loop of Rpc on a connection of Conn; Session/Queue is its specification,
--                 Session/Refines that it meets it, by Session/Follows and Session/Rounds, and
--                 Session/Ends how it ends
--   Logger        js/src/createRpcLogger.ts; Logger/Writes and Logger/Finish have its theorems
--
-- How the code is read. A text is the list of its code units and a blob the list of its bytes. UTF-8
-- and the mapping of case are the platform's: the record Platform has them as operations, and the laws
-- that the theorems use: what it does to ASCII, and that UTF-8 carries well-formed text. JSON is the
-- environment's too: the record Json has it, with the law that it reads back what it wrote of the
-- values that it can carry. A function that throws returns a sum with its errors. An object that is
-- compared by identity is a number. What a handler of a dispatcher does is what it comes to, and in
-- Rpc/Events it may throw. What the listeners of an event target do is a parameter of a dispatch, and
-- they may throw; of those of a persistent socket the model says whether they close it. Of an
-- asynchronous function the model is the sequence of its steps; what may happen between the events of
-- a socket is a step relation.
--
-- Bounds and fuel. The recursion of createRpcEventDispatcher takes fuel 2: the second call has a
-- content type. The loops of extractHeadersFromBlob take fuel: a chunk's loop one more than the bytes
-- of the chunk, since each round goes on behind a line feed of it, and the outer loop one more than
-- the bytes of the blob, since each round goes on by 64 bytes. That it is enough is part of the
-- equivalence with the scan by bytes. Decimal digits take fuel n + 1 for the number n. Numbers are not
-- rounded to doubles: lengths beyond 2^53 are read exactly. Where the program reads a plain object by
-- a key that it is given (the table of calls, the methods of a client, the listeners of a type,
-- messageHeader), a name of Object.prototype is found there; the other reads of headers are by the
-- names that Header has, which are none of them.
--
-- Not modelled are interfaces and re-exports, which have no behaviour, and the implementations in Go,
-- Ruby and PHP. Listeners of a persistent socket may close it while it dispatches an event, and do
-- nothing else to it; where a connection stands on it, they are those added after the connection's
-- own. What the listeners of an event target do to it is left open. In Session a message arrives when
-- its parsing ends. In Logger the decodings that are under way end in any order, which is more than
-- can happen where one of them fails at once.
pub mod Base
pub mod Exchange
pub mod Promise
pub mod Text
pub mod Headers
pub mod Header
pub mod Message
pub mod Wire
pub mod Events
pub mod Dispatcher
pub mod Socket
pub mod Number
pub mod Parse
pub mod Messages
pub mod Prototype
pub mod Rpc
pub mod Conn
pub mod Values
pub mod Create
pub mod Content
pub mod Decoder
pub mod Delivery
pub mod Subscribers
pub mod EventDispatcher
pub mod Session
pub mod Logger
