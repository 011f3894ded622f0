-- ===== src/Lib.antt =====
-- A model of socket-to-ciphertext, an instant messenger with a server and a client that talk in
-- lines of JSON, with theorems on the parts that decide who is logged in, who receives what, and
-- what is kept.
--
-- The program's parts. A connection's bytes become lines (im/common/codec.py), a line becomes a
-- frame (im/common/frames.py), and the router (im/server/router.py) acts on each frame: it reads and
-- writes the registry of connections (im/server/registries.py) and the stores (im/server/store/),
-- and hands frames to other connections. The client keeps a connection state machine and a retry
-- schedule (im/client/net/) and its conversations (im/client/model/); its controller
-- (im/client/controller/) turns gestures into frames and frames into changes of the model, and seals
-- and opens bodies with a keyring (im/crypto/).
--
-- Which file models which part:
--   Wire/Value          JSON values as Python holds them
--   Wire/Frame          frames.py: to_dict and from_dict (the field `data` is `payload`)
--   Wire/LineBuffer     codec.py: LineBuffer.feed, with Python's strict UTF-8 decoder and encoder
--   Wire/Codec          codec.py: encode and decode
--   Crypto/Primitives   what im/crypto calls and does not implement, and what it promises
--   Crypto/Envelope     identity.py and envelope.py: deriving a key, sealing, opening
--   Crypto/Keyring      keyring.py: the class Keyring, with the keys it has derived
--   Crypto/Toy          primitives that keep those promises, for the tests
--   Server/Env          what the program calls and does not implement
--   Server/Registry     registries.py: SessionRegistry, and RoomRegistry in its child
--   Server/Store        users.py, rooms.py, messages.py: each table as a list of rows
--   Server/Router       router.py: World is the router's state; Accounts, Contacts, Membership,
--                       Delivery, Rows and History have one function for each method; Handle is
--                       `handle`, and `step` and `run` are events of connections one at a time
--   Server/Handler      handler.py: the outbox, with a step of each thread as a constructor of Step
--   Client/State        net/state.py: the transition table and the observer
--   Client/Backoff      net/backoff.py: the retry schedule, at its default parameters
--   Client/Conversation model/conversation.py: messages and the unread count
--   Client/Chat         model/chat.py: ChatModel, with the events of model/events.py
--   Client/Requests     net/connection.py: the frames that the sending methods build
--   Client/Connection   net/connection.py: sending, closing, the awaited reply, the heartbeat
--   Client/Session      net/session.py: the supervisor that replaces a lost connection
--   Client/Controller   controller/chat.py: ChatController; Gestures is what the user does, Inbound,
--                       History and Frames what the server sends
--   EndToEnd            the three together: one client, the router, and the other client
-- The other files hold lemmas (Server/Router/Sending, Server/Router/Sessions,
-- Client/Controller/Guarded and Released, the children of the stores, of the keyring and of the
-- handler) and tests at concrete inputs (Tests).
--
-- State is passed explicitly. The frames given to `session.send` are the list `sent` of the
-- World, in order. A handler's outcome is `done`, or `abort` where the code raises; `step` then
-- does what the handler's `finally` does. The third outcome, `outside`, is a LOGIN that succeeds
-- with a `user` that is not a text: sqlite compares it as a text, but the session and the
-- registry then hold the value itself, which the World does not, so `step` and `run` have no
-- result from there. A connection is a number, the identity of a Session object. An operation of
-- the controller is a function from its state to its state and a result, where no result is an
-- exception; what was done before an exception stays done. Session's sending methods pass a call
-- on to the live ServerConnection, so a frame is taken, and joins the list `sent`, or
-- NotConnected is raised: which one, at each call, is the parameter `takes`.
--
-- Parameters. Env has the clock, random ids and salts, scrypt, json.dumps and json.loads, `str`
-- of a value, `int` of a text or a float, and sqlite's binding of a value to a TEXT column.
-- Nothing is assumed of them but where a theorem says so: that a frame's text is one line, is
-- read back by json.loads and has no surrogates (Wire/Codec). Primitives has X25519, HKDF,
-- AES-GCM, base64, UTF-8 and random bytes; IsLawful says that decoding undoes encoding and that a
-- body is opened under the key it was sealed with, and Agree that two key pairs exchange to one
-- secret. No theorem says that a key cannot be guessed.
--
-- Bounds. The loop of `feed` runs on fuel, the length of the buffer and one more, which is proved
-- to be enough. Python's integers are unbounded (Prelude/Int); an INTEGER column holds 64 bits,
-- and a timestamp beyond that raises. Text is compared by code points.
--
-- Not modelled: the composition of the router with the threads of its connections (events reach
-- the router one at a time, and a full outbox does not end a session there), sockets, sqlite's
-- files and transactions, lone surrogates in texts, what follows a login under a value that is
-- not a text, in the controller `int()` of a text or a float (they end as an exception), the
-- jitter of the retry schedule, an identity's file, the sockets and threads of the client's
-- connection, its views, and the search and sorting by folded case in the chat model.
pub mod Prelude
pub mod Wire
pub mod Crypto
pub mod Server
pub mod Client
pub mod EndToEnd
