-- ===== src/Lib.antt =====
-- The core of BSG as it runs in the browser, and the parts of its Node server that guard and relay:
-- the panel's React hooks and Zustand stores, the extension's background worker and scripts, and
-- the server's middleware and routes. BSG lets friends solve LeetCode problems together: a panel
-- beside LeetCode creates and joins rooms through a REST server, chats over a web socket, and
-- follows the rounds that the server announces by moving the LeetCode tab.
--
-- How the parts interact. The hooks share the stores (room, user, panel, settings, problem counts)
-- and `chrome.storage.local`. The chat socket's frames end as lines of the chat or as the room
-- store's last game event; the hook of the game events reacts to that event, sets the timer, writes
-- the storage, tells the background worker which round it is and moves the tab. The three ways into
-- a room write the room store and the storage and push the route of the room page. The create-room
-- form counts the matching problems through a cache and hands its settings to `createRoom`. The
-- page's scripts report edits and submissions to the worker, which keeps the touched problems of
-- the round, posts accepted solutions to the server and has a connection of its own for the room
-- that the panel stored. The server scores a posted solution and pushes it to the repository that
-- the user connected; its limiters stand before every route.
--
-- Files, and the code each is about (paths under bsg-frontend/apps/extension, where no other is
-- given):
--   Prelude (Tests, Lists, Texts, Int, Decimal, Json, Effects, Options): texts are lists of code
--     units, `Json` is a dynamic value, `Run` is a handler that writes state and may throw.
--   Navigation (Slugs, Replay): hooks/useRoomEvents.ts `parseProblemSlug`, `problemUrl`,
--     `resolveResumeSlug`, `navigateActiveTab`; utils/navigation.ts.
--   Stores (Room, User, Panel, Settings, Counts; Room/Tabs, Counts/Order, Counts/Keys): stores/.
--   World: the state that hooks share, with `chrome.storage.local`, the badge, the tabs and what was
--     sent to other parties.
--   Requests (Retries): the loop over 429 replies that useRoomChoice.ts, useProblemPicker.ts
--     and useRoomInit.ts share.
--   Events (Handlers, Timing, Keys, Rounds): hooks/useRoomEvents.ts, the reactions to game events,
--     the resume on mount, `handleEndRound` and `handleLeaveRoom`.
--   Chat (Groups, Input, Socket, Receive; Receive/Quiet, Receive/Effects): hooks/useChatSocket.ts.
--   Chat/Display (Whole): customComponents/RoomDisplays/ChatDisplay.tsx.
--   Timer: hooks/useRoundTimer.ts.
--   Wizard (Totals, Filters, Query): hooks/useRoomChoice.ts and the buttons of
--     customComponents/CreateRoom/problem-count-section.tsx.
--   Wizard/FilterTab (Sent): customComponents/CreateRoom/filter-problems-tab.tsx.
--   RoomInit (Params, Flows, Active, Laws): hooks/useRoomInit.ts.
--   Picker (Sent): hooks/useProblemPicker.ts.
--   Progress (Segments, Steps): customComponents/Toolbar/ProblemProgress.tsx and the step buttons of
--     customComponents/Toolbar/Toolbar.tsx, over the data of hooks/useStatistics.ts.
--   Board (Current): hooks/useLeaderboard.ts.
--   Breakdown (Sorting, Sums, Rows, Order): customComponents/RoomDisplays/StatisticsDisplay.tsx, over
--     the participants of Board and the rounds of Progress.
--   EditTimer (Range): customComponents/RoomDisplays/SettingsDisplay.tsx.
--   JoinForm (Single): hooks/useJoinRoom.ts and pages/room-choice-page.tsx.
--   TouchedView (Agrees): hooks/useTouchedProblems.ts, beside Worker/Touched.
--   Addresses (Stuck): lib/config.ts.
--   Session (Start, Polls): hooks/useSessionInit.ts, hooks/useLogin.ts, hooks/useGitHubConnection.ts.
--   Page/Touches (Once): bsg-frontend/extension/contentScript.js `isEditingKey`, `reportTouch`,
--     `handleEditorInput`.
--   Page/Widths (Usable): contentScript.js, the width of the panel and its messages FOLD, UNFOLD and
--     MAXIMIZE.
--   Page/Themes (Wanted, Follows): contentScript.js, the theme of the panel, and `useThemeSync` of
--     pages/_app.tsx.
--   Worker/Clipboard (Copied): background.js `ensureOffscreen`, `doCopy`,
--     bsg-frontend/extension/offscreen.js and hooks/useCopyCode.ts.
--   Worker/Touched (Sets, Replays): bsg-frontend/extension/background.js `markProblemTouched`,
--     `resetTouchedProblems`.
--   Worker/Submissions (Intercept, Earned, InTurn; Intercept/Posted): the SUBMISSION_PENDING and
--     SUBMISSION_RESULT branches of background.js, and bsg-frontend/extension/injected.js.
--   Worker/Socket (Frames, Joins, Single): background.js from `let socket` on, and its LOGOUT branch.
--   Server/SlidingWindow (Trailing): server/src/middleware/logging.js `createRateLimitMiddleware`.
--   Server/FixedWindow (Budget): server/src/middleware/rate-limit.js `RateLimiter`.
--   Server/Endpoints (Shared): rate-limit.js `PerEndpointRateLimiter`.
--   Server/Logging (Unmixed): logging.js `StructuredLogger`, `createStructuredLoggingMiddleware`,
--     `createValidationMiddleware`.
--   Server/Profile (Names, Tokens): server/src/config/passport.js, and `createSubmissionRepo` of
--     server/src/config/github.js.
--   Server/Submission (Scores): server/src/routes/submission.js, server/src/config/github.js.
--   Server/Auth (Laws): server/src/routes/auth.js, server/src/config/redis.js.
--   Server/Proxy (Laws): server/src/routes/rooms.js, problems.js and statistics.js.
--   Tests: the code run on small inputs.
--
-- Conventions. A setter of a store is a function on its record. An asynchronous handler is a function
-- of the replies to its requests, in their order, and of the state; the instants that `Date.now()`
-- gives are arguments. Where other code may run between a read and its callback, the two are
-- separate steps, and a course of events is a list of steps. What `chrome.tabs.update`,
-- `JSON.parse`, `new Date`, the router, OAuth and the other services do is a parameter or an
-- argument; Redis is an interface with the laws that the limiter needs. `typeof chrome` tests read
-- one Boolean, since the extension's API is there as a whole or not at all. Numbers of JavaScript
-- are integers or NaN: no fractions, no infinities, no precision limit. Identifiers and slugs that
-- the program's types promise to be strings are texts.
--
-- Bounds and fuel. The retry loop takes fuel 4, one for each request that the code can make. All
-- other loops are structural.
--
-- Not modelled: rendering, styles, scrolling, the caret and focus; sounds but for which is played;
-- the debounces and the order of state updates inside one React render; bodies of requests but for
-- posted solutions, new rounds and changed durations; the alerts, and the logs but for those of the
-- server's requests; the panel's heights; the polling of the statistics; which tabset of
-- LeetCode is active; the server's set-up; the web app, the component packages and the Go services.
pub mod Prelude
pub mod Navigation
pub mod Stores
pub mod World
pub mod Requests
pub mod Events
pub mod Chat
pub mod Timer
pub mod Wizard
pub mod RoomInit
pub mod Picker
pub mod Progress
pub mod Worker
pub mod Page
pub mod Session
pub mod TouchedView
pub mod Addresses
pub mod Board
pub mod Breakdown
pub mod EditTimer
pub mod JoinForm
pub mod Server
pub mod Tests
