-- ===== src/Lib.antt =====
-- The NeoNect desktop client: its WebSocket connection, its relay, device and message services,
-- its chat model, its encryption, its notifications, its settings and its table of messages.
--
-- The program is a Qt application in C++. A relay server is reached over HTTP and a WebSocket
-- (src/transport), the services of src/services turn what arrives into messages, the table of
-- src/storage keeps them, the encryption of src/crypto seals them, and the models of src/core show
-- them to the QML views, which follow the models' signals. Each part modelled here is a module, with
-- the state of the class as a record and one function for each method or slot:
--
--   Socket    src/transport/websocketclient.cpp. Frame is the coding of frames (`encode` for the bytes
--             of sendFrame, `next_frame` for one round of processFrames), State the fields, the
--             effects and the slots for a lost connection, Client the other calls and slots.
--   Relay     src/services/relayservice.cpp. Session is connecting, polling and expired sessions,
--             Send the packet of a message and its way to the server, Packet the fields of a packet,
--             Receive what is done with an item. The client of Socket is part of its state; the
--             settings are the interface of src/storage/isettingsrepository.h.
--   Device    src/services/deviceservice.cpp. Attempts is a registration over the server's answers.
--   Messaging src/services/messageservice.cpp. Rows is the map of a message, Transfers the timers of
--             the running transfers, Send, Requests, Receive and Delivery the calls and slots, Store
--             the hand-over of requests to the repository and of its answers back.
--   Chat      src/core/chatmessagemodel.cpp. Item is a row and parseVariantMap, Blocks is
--             recalculateBlocks, Order the standard library's sort and search as they are called,
--             Model the state and its signals, Rows the calls of the views, Slots the slots of the
--             message service, View what a view shows that follows the signals.
--   Crypto    src/crypto/cryptoservice.cpp and the key buffer of src/common/openssl_raii.h.
--   Notify    src/core/notificationmanager.cpp, with its settings and the message service's hook.
--   Settings  src/storage/settingsrepository.cpp: the values at hand and the groups of the file; Peers
--             is the names and avatars of other users, Interface the part that Relay calls.
--   Storage   src/domain/message.h and the worker of src/storage/sqlmessagerepository.cpp: Table has
--             the rows by their columns and what the SQL statements do to them, Repository the calls
--             of the worker, where the answers of begin, commit and rollback are parameters.
--   Qt        what the program uses of Qt's texts and variants, as a parameter.
--   Base      shared names, lists measured by native numbers, integers, texts, hashes as lists of
--             their entries (Hash) and values of JSON (Json).
--
-- A slot is a function from the state to the state; signals, writes and requests to the socket, the
-- server or the repository are kept in a log, in order, and the answer to a request is a call of its
-- own. Bytes are numbers, a qint64 or an int is an integer, and where the source wraps around, the
-- model does: the length of a frame is taken modulo 2^64, and cast to an int. The timers of the
-- message service are objects in a list, and m_activeTransfers points to their places, since an entry
-- may be replaced while its timer runs. What the program calls and does not hold is a parameter: Qt,
-- OpenSSL, the JSON and Base64 coding, files, SQLite's answers and order, the clock and random
-- numbers. Their documented behaviour is a hypothesis where a theorem needs it, and each such theorem
-- has an instance in a module of tests.
--
-- The loop of processFrames runs on fuel, the number of buffered bytes and one: each round takes a
-- byte at least off the buffer, but for a length that overflows. The search of upper_bound runs on
-- the number of rows, which each round halves. The exchange of a registration takes a number of
-- answers, three for each of its three attempts. The other loops go over a list.
--
-- Not modelled: the QML views, the application object, audio, themes and version information; the
-- HTTP transport, bookmarks and open conversations in the settings, the authentication and
-- friend services and the network manager, which are next; the threads of the repository and of the
-- chime, of which only the order of the calls is kept; the window flags and the screen geometry of
-- the notification manager; the wiping of memory; log output.
pub mod Base
pub mod Qt
pub mod Socket
pub mod Chat
pub mod Crypto
pub mod Notify
pub mod Storage
pub mod Messaging
pub mod Relay
pub mod Device
pub mod Settings
