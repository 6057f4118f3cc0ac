-- ===== src/Lib.antt =====
-- A model of irhub, a hub for infrared remotes: the Node.js backend `backend/server.js`, which keeps
-- the remotes, routines and price rules and talks to the hub over MQTT; the page
-- `frontend/app.js`, with the remotes, learn mode, the modals of routines and rules, the views and
-- cards, the WebSocket, and the setup of the hub over Web Bluetooth; and of the hub itself what it
-- does with the settings that this setup writes (`firmware/src/net_config.cpp`,
-- `firmware/src/ble_provision.cpp`).
--
-- How the parts interact. A REST handler, an MQTT message, a timer and a pass over the price rules
-- each take the state of the backend (`Backend.State.Server`: the lowdb collections, the learn
-- session, the pending timers, the price cache, the clients, what was published) to the next one. A
-- handler is a function from the state and the request to the state and the reply. `broadcast`
-- appends to what each open client received, `publish` to what was sent to the hub. Learn mode
-- connects the MQTT listener with the remotes, routines and price rules fire buttons by
-- `fire_button`, and price rules run routines. The page posts bodies to the handlers and takes over
-- what they answer, hears what they broadcast, and writes settings to the hub: the theorems on these
-- three borders have both sides in them.
--
--   * Prelude (with Tests, Lists, Strings): Boolean tests, list functions over the native numbers,
--     and JavaScript strings as lists of UTF-16 code units (`Text`).
--   * Js, Js/Laws: JSON values and `undefined`, doubles as exact dyadic numbers, `===`, truthiness,
--     `||`, `??` and property access that may throw a TypeError (`Js`). Objects from two JSON texts
--     are never `===`.
--   * Backend/Lowdb: the chains `find`, `assign`, `remove` and `push` on a collection, as an
--     interface with the laws that lodash documents for ids that are no objects; Lowdb/Reference has
--     an instance, Lowdb/Unique, Lowdb/Places and Lowdb/Upsert the lemmas on ids, places and on
--     create-or-update.
--   * Backend/State, Backend/Http: the state, what comes from outside (`Env`), the replies.
--   * Backend/Slug: the id that `POST /api/remotes` makes of a name; Slug/Shape: its shape.
--   * Backend/Remotes: the handlers of `/api/remotes`, with the normalization of buttons; below it
--     the lemmas and theorems on refusal, storage, uniqueness, normal form and round trips.
--   * Backend/Fire: `fireButton` and `POST /api/send`; Fire/Agree compares them.
--   * Backend/Learn: `POST` and `DELETE /api/learn`, `GET /api/status`, the timer, and the listener
--     `mqttClient.on('message')`; Learn/Timers (the timer and the session), Learn/Signal (the write of
--     a signal) and Learn/Results (what a message does).
--   * Backend/Routines: the handlers of `/api/routines`; Routines/Run: `runRoutine`; Routines/Steps
--     Routines/Store and Routines/Upserts: what is stored.
--   * Backend/Clients: what one client receives of the broadcasts.
--   * Backend/Price: `refreshPrices`, `getCurrentPriceCents` and the price handlers; Price/Current and
--     Price/Refresh: the price that covers a time, and refreshes that fail.
--   * Backend/Rules: the handlers of `/api/rules` (Store and Upserts: what they store);
--     Rules/Evaluate: `evaluateRules`, with single passes (Pass, Edge) and passes that overlap
--     (Overlap).
--   * Backend/Steps: all of these as one relation between states (`Step`, `Reach`), with what holds in
--     every reachable state (Steps/Sound).
--   * Frontend/Setup: TextEncoder and texts (Encoding), `describeProvStatus` (Status), the form
--     and `validateSetupForm` (Form), `setupApply`, `setupForget` and the status handlers (Apply);
--     Checks, Partial and Reports have the theorems on them. Setup/Find: `setupFind` and
--     `renderSetupSupport`, with what holds of the form however they end (Usable, Reachable).
--   * Frontend/Remotes: the actions on remotes and the learn modal of the page, with the bodies that
--     they post; Remotes/Learn: `onLearnResult`; Remotes/Add, Remotes/Delete,
--     Remotes/Relabel and Remotes/Mirror: the page and the backend together. Remotes/Toolbar: the
--     controls above the grid (Blur: the input of the name, on both sides). Remotes/Signal:
--     `updateModalSignalInfo` (Verdict: it says what the backend will do).
--   * Frontend/Selects: the drop-down lists; Frontend/Saved: how a saved item is taken over, against
--     create-or-update in the backend.
--   * Frontend/Routines: the routine modal, its requests and `runRoutineNow`; Save (one request on
--     both sides), Draft, Moves, Ids and Sync (any sequence of moves on
--     both sides).
--   * Frontend/Rules: the rule modal, its requests and `toggleRule`, and how it opens (Rules/Open);
--     Save, Targets, Reopen and Toggle have the page and the backend together.
--   * Frontend/Cards: `escapeHtml`, `describeSteps`, `describeAction` and the HTML of the cards;
--     Cards/Escape and Cards/Markup: no name can add markup.
--   * Frontend/Views: `showView`, `renderRemoteView`, `renderAll` and `boot`; Views/Panels: which panel
--     is shown; Views/Grid: the order of the keys.
--   * Frontend/Live: the messages of the WebSocket as the backend writes and the page reads them
--     (Live/Messages), and `refreshCurrentPrice`.
--   * Firmware/NetConfig: `parse_ipv4` and `validate`; Digits, Parts and Agrees compare `parse_ipv4`
--     with the test of the page. Firmware/Provision: `apply_value` and `push_status`; Buffers, Hosts,
--     Settings and Accepts: the hub takes what the page sends.
--   * Tests: a small house and a form on which the theorems are applied.
--
-- An `await` is modelled by arguments that say what other handlers do to the state meanwhile and
-- what the broker, the browser or the hub answers (`World`, `Rounds`, `Link`). The loops of
-- `runRoutine` and `evaluateRules` walk live arrays that may grow, so they take fuel: one round more
-- than there are steps or rules is enough where nobody edits them meanwhile. `JSON.parse`, `Date`,
-- `Number`, `parseInt` and `parseFloat` of a text, `String` of anything but a string, `TextDecoder`,
-- short uuids, how a URL is routed and the MQTT acknowledgement are parameters.
--
-- Not modelled: the wiring of Express, static files, CORS and `setInterval`; logging, except where it throws; the text of
-- JSON, except that an `undefined` property is left out; the MQTT client's reconnection; lookups by
-- ids that are objects; edits of the form between the writes of `setupApply` where a theorem says
-- so; what happens on the page between a request and its answer (an action on a remote is one
-- step, and so is a request of a modal with its answer); the wording of most toasts; colours, classes
-- and the list of remotes at the side; what is drawn, except that `renderAll` was reached and what the
-- cards and the grid then show; of the firmware the prepared writes, the record in flash, the
-- infrared capture and the network tasks; and `backend/node_modules`, copies of libraries. A
-- rule's name and id are read before its action is awaited; of an action the fields that the rules engine reads are kept.
pub mod Prelude
pub mod Js
pub mod Backend
pub mod Frontend
pub mod Firmware
pub mod Tests
