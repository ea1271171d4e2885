-- ===== src/Lib.antt =====
-- Seshat keeps tasks in a forest. A server (server/) owns them, in memory and in one data file;
-- clients add, update and delete tasks over HTTP, and a Telegram bot (client/bot/) lists them with
-- buttons that edit them. This library models the Go code of the server's store and handlers and of
-- the bot, and proves what makes them correct.
--
-- Parts and files
--   Task.antt               internal/task/task.go and server/task.go: Content, Meta, Task, AddRequest,
--                           UpdateOp, State. An id, a status or a title is a `Text`, a list of bytes.
--   Server/Error.antt       the error types of server/store.go and server/validate.go, as one sum.
--   Server/Validate.antt    server/validate.go: `validate_state` is validateState. The children of the
--                           module say what a forest is (Graph) and follow its two passes (Containers,
--                           and Visit with Search); Forest joins them, Parents has what follows.
--   Server/Content.antt     the pure helpers of server/store.go: validateContent, applyCompletion,
--                           clamp, insertAt, removeString.
--   Server/Store.antt       server/store.go: load, Add, Update, Delete and rebuildIndex. Each write
--                           builds a candidate (`add_candidate`, ...) and ends in `commit`, the lines
--                           that all three share: validate, count, save, take over, rebuild the index.
--                           Its child Written has the tasks that the writes are to leave, field by
--                           field, and History follows one task through calls of other clients.
--   Server/Slices.antt      server/store.go once more, with slices that share arrays: cloneState,
--                           append, and the writes in place of insertAt and removeString.
--   Server/Http.antt        server/handlers.go: `handle` is the chain that Handler returns, around
--                           the store: `auth`, `rate_limit`, and `route` for the mux. Its child
--                           Meantime has what other clients can make of a task between two requests.
--   Server/Save.antt        saveState of server/store.go, over the calls of the package os.
--   Server/Start.antt       server/main.go: `run_main` is main until it listens, from the path of the
--                           configuration to the server.
--   Bot/View.antt           client/bot/view.go up to ListGroups: index, urgency, ranking, groups.
--                           View/Agree compares two indexes, and View/Steady two orders in which
--                           the server may send the tasks.
--   Bot/Page.antt           pageBreaks and Paginate of client/bot/view.go. Page/Chunks divides the
--                           groups into pages, and Page/Listing has what the pages show.
--   Bot/Due.antt            DueFromKeyword and floorDiv of client/bot/view.go.
--   Bot/Config.antt         parseUTCOffset of client/bot/config.go.
--   Bot/Registry.antt       client/bot/actions.go: what a button or a prompt stands for. The
--                           linked list is a list of elements with identities, which the maps name.
--   Bot/Find.antt           FindGroups of client/bot/view.go.
--   Bot/Render.antt         client/bot/render.go: listings; Render/Card has cards and pickers.
--                           Render/Reader is a reader of HTML, and Render/Shown has the texts
--                           without markup.
--   Bot/Effect.antt         the world of the bot, and its steps: state passing with an error.
--   Bot/Client.antt         client/bot/seshat.go: `exchange` and `outcome_of` are Client.do.
--   Bot/Sender.antt         tgSender of client/bot/main.go; its child Buttons is about the buttons
--                           of a message.
--   Bot/Parse.antt          ParseCommand, ParseCapture, applyTextPatch of client/bot/handlers.go.
--   Bot/Handlers.antt       the handlers of client/bot/handlers.go: Handlers/Edit has applyEdit and
--                           SetField, Handlers/Reply prompts, replies and conflicts, and
--                           Handlers/Callback the switch over the kinds of action.
--   Bot/Settings.antt       where main finds the configuration, LoadConfig and TokenFor of
--                           client/bot/config.go, and Authorize; its child Users is about whom
--                           they let in.
--   Bot/Dispatch.antt       senderID and the middlewares of main in client/bot/main.go.
--   Bot/Text.antt           what the bot uses of the Go packages strings and strconv.
--   Bot/Permits.antt        what any handler may do to the world, for a policy: Effect/Emits says what
--                           a policy is, and the children of Permits follow the handlers.
--   System.antt             the bot and the server together: the requests of the one are handled by
--                           the other. System/Calls follows a call of the client to the store,
--                           System/Edit one attempt of an edit, System/Shared the same while other
--                           clients use the server, System/Saved an edit that goes through, and
--                           System/Reply a reply to a prompt.
--   Prelude.antt            shared names, Boolean tests, lists, byte strings, association lists and
--                           integers.
--   Server/Tests.antt, Server/HttpTests.antt, Server/SaveTests.antt, Server/SliceTests.antt,
--   Bot/Tests.antt, Bot/RegistryTests.antt, Bot/SettingsTests.antt, Bot/HandlerTests.antt,
--   Bot/DispatchTests.antt, System/Tests.antt       runs on small data.
--
-- How the model reads the code
--   A map is an association list, and iteration over it goes in the order of the list: what holds for
--   every list holds for every order that Go may choose. A nil slice or map and an empty one are the
--   same value, and a nullable field is an `Option`. A call of the store runs under its lock, so it is
--   one step, and `run` is any sequence of them. `Env` is what a call asks of its surroundings: the
--   time, a new id, and whether the file could be written. What the handlers take from elsewhere is a
--   `Library`: SHA-256, the rate limiter of golang.org/x/time/rate, and the JSON decoders. The file is
--   replaced by a rename, so a failed write leaves it (Server/Save.antt). In
--   Server/Store.antt values are immutable and cloneState is the identity; Server/Slices.antt has the
--   arrays that Go writes into, and shows that a candidate can be taken for a value. There a slice
--   starts at the first cell of its array, and what `append` has to spare is any function. int64
--   sums wrap (`add64`, `sub64`), and uint64 counters wrap (`inc64`).
--   sort.SliceStable is a stable insertion sort.
--   A handler of the bot is a step on a `World`: the outside, the registry of buttons, and a log of
--   what went out. `Outside` is what the bot calls and the repository does not have: the network, the
--   Telegram library, randomness, the clock, JSON, and strings.ToLower with its Unicode tables. The
--   network may lose anything, and every call of Telegram may fail. The handlers of several updates
--   run one after another; what other clients do in between is a change of the outside. In `System`
--   the outside has the server of Server/Http.antt, which handles each request that the bot makes; in
--   `shared` it first handles any requests of other clients, among them other handlers of the same
--   bot. The registry is behind a lock, so handlers that run at the same time use it in some order of
--   whole operations, which is what `Steps` are.
--
-- Fuel
--   validateState descends at most once for each task: its fuel is the number of tasks plus one. The
--   walks of the bot carry a set of visited ids: their fuel is the number of indexed ids plus two. Each
--   level of either descent colours or marks one more id. The eviction of the registry makes the list
--   shorter in every round, and gets its length as fuel.
--
-- Not modelled
--   The parsing of flags, sockets and signals; the set-up of the Telegram library in the bot's
--   main, and the loop of that library that polls; JSON and the encoding of responses; recovery
--   from panics, since no function of the model panics; log lines; the interleaving of whole
--   handlers; and the clients in other languages. The text of the errors of load and of LoadConfig
--   is left out or shortened.
pub mod Prelude
pub mod Task
pub mod Server
pub mod Bot
pub mod System
