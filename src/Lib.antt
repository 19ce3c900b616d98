-- ===== src/Lib.antt =====
-- The chat: an Express and Socket.IO server over MongoDB (src/ of the repository), and its React client
-- (frontend-ui/). A request over HTTP passes the middlewares of its route (src/routes/) and reaches a
-- controller (src/controllers/). A client's socket event goes through a handler
-- (src/sockets/handlers/), which parses the payload (src/validators/), calls a service
-- (src/services/) that reads and writes the database through mongoose models (src/models/), tells
-- the other sockets of the conversation's room, and acknowledges. The client shows a session, a list
-- of conversations and one open conversation, which answers and events keep up to date.
--
-- Files, and what they model:
--   Prelude     lists, options, Boolean tests and string maps that the other files share
--   Exec        async functions that may throw: what was written before a throw stays written
--   Sanitize    stripHtmlTags and trim (src/utils/sanitize.ts); a text is its UTF-16 code units
--   Limiter     checkMessageRateLimit (src/middlewares/socketRateLimit.middleware.ts)
--   Model       the documents of src/models/*.ts; an ObjectId is its number, a date its milliseconds
--   Mongo       what the services use of mongoose and MongoDB, a record of operations and laws
--   Conversations, Messages, Presence    src/services/{conversation,message,presence}.service.ts
--               Messages/Interleaving has the awaits of receipts as steps of their own, and
--               Messages/Log forgets the order in which MongoDB keeps the messages
--   Validators  the schemas of src/validators/message.validator.ts
--   Server      the server's state, and the calls of Socket.IO that a handler makes, in order
--   Sockets     the handlers of src/sockets/handlers/*.ts
--   Lifecycle   the tasks of a connection and a disconnection (src/sockets/index.ts)
--   Auth        src/services/auth.service.ts, with the User schema and src/utils/jwt.ts
--   Users       src/services/user.service.ts
--   Requests    the schemas of src/validators/{auth,user,conversation}.validator.ts, and validate
--   Http        src/controllers/*.ts, with the error handler; Http/Guards, the two authentication
--               middlewares; Http/App, src/app.ts and src/routes/*.ts
--   System      the whole server: every request, socket event, connection and disconnection as a step
--               on the one state (src/sockets/index.ts, src/app.ts), and what all of them keep
--   Boot        the configuration, the start and the shutdown of the process (src/server.ts,
--               src/config/*.ts, initSocketServer of src/sockets/index.ts)
--   Session     frontend-ui/src/context/AuthContext.tsx, lib/socket.ts and request of lib/api.ts
--   Api         what the functions of frontend-ui/src/lib/api.ts send
--   Thread      frontend-ui/src/hooks/useMessages.ts, the open conversation of a client
--   Inbox       frontend-ui/src/hooks/useConversations.ts, a client's list of conversations
--   Views       what the components of frontend-ui/src/components/ and pages/ compute
--   Forms       AuthPage.tsx and NewConversationModal.tsx, the client's forms
--   Markup      the trees of elements that the components and pages render
--   Examples    a MongoDB of lists, and the theorems at concrete inputs
--
-- Names are those of the source in snake_case (markMessagesRead is mark_messages_read). The state of
-- a service is the database `Db`; the two maps in memory are association lists. A fresh id and the
-- current time are arguments (`Stamp`, `now`). mongoose, MongoDB and the text form of ObjectIds are
-- the parameter `Mongo`: the laws are the documented meaning of find, findOne, create, updateMany,
-- save, sort and of a $group that counts. bcrypt, jsonwebtoken and toLowerCase are the parameter
-- `Crypto`, zod's own tests are `Zod`, and regular expressions in queries are `UserQuery`. A handler
-- runs as one step, except in Messages/Interleaving and Messages/Sending, whose steps are the
-- database calls that createMessage, markMessageDelivered and markMessagesRead await: elsewhere the steps of two
-- handlers do not interleave between two awaits.
--
-- Fuel: `all_pages`, a client that follows the cursors, for which one request more than there are
-- messages is enough; and `exchange`, whose times are those at which the server handles requests, of
-- which two are enough.
--
-- Not modelled: logging; what the Redis adapter does between instances; helmet, cors and the parsing
-- of bodies; jwt.sign throwing, since the settings of the token are taken to be valid; keys, refs, titles, placeholders and scrolling in the markup of the front end; React's
-- scheduling of renders.
pub mod Prelude
pub mod Exec
pub mod Sanitize
pub mod Limiter
pub mod Model
pub mod Mongo
pub mod Conversations
pub mod Messages
pub mod Presence
pub mod Validators
pub mod Server
pub mod Sockets
pub mod Lifecycle
pub mod Auth
pub mod Requests
pub mod Users
pub mod Session
pub mod Views
pub mod Forms
pub mod Http
pub mod Thread
pub mod System
pub mod Api
pub mod Markup
pub mod Boot
pub mod Inbox
pub mod Examples
