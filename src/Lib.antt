-- ===== src/Lib.antt =====
-- The logic of the karna dashboard, dashboard/web/src of the repository.
--
-- The dashboard shows the events of the karna web application firewall and edits its rules. The
-- development models its data modules and the logic of its views and forms. A definition keeps the
-- name of its function in snake_case, so that `build_exclusion_controls` is `buildExclusionControls`.
--
--   Common      lists, tests and predicates over the native numbers
--   Text        JavaScript strings as lists of UTF-16 code units: `trim`, `split`, `join`,
--               `startsWith`, `includes`, `lastIndexOf`, `Set` and `sort` on lists of texts
--   Value       JavaScript values as they come out of JSON, with `String(v)`, truth and `v?.name`
--   Exclusion   data/exclusions.js, the guided editor of exclusion rules
--     Target    request fields and the targets that name them in a rule (lines 1 to 65)
--     Values    the lists of values that a user types, and the form (lines 67 to 88)
--     Controls  the controls of a rule, built from the form and read back (lines 90 to 155)
--     Builder   the friendly builder, from and to the form (lines 157 to 233)
--     Draft     the draft of an exclusion for an event (lines 235 to 276)
--   Category    data/categories.js, the attack category of a matched rule
--   Api         data/api.js, the client of the backend
--     Session   the token, and what an answer makes of it (lines 10 to 68); Session.Calls holds the
--               calls of `liveApi` (lines 86 to 136)
--     Stream    the event stream of `streamNdjson`, cut into chunks
--   Auth        auth/AuthProvider.jsx, who is signed in
--   Demo        data/demo.js, the backend of the live demo, which runs in the browser
--     Etag      the etag of a stored text, and the check of an entry (lines 30 to 34, 180 to 185)
--     Clone     the copy of a value by way of JSON (line 11), which throws on `undefined`
--     Write     what the write calls are made of (lines 172 to 214)
--     Calls     the write calls on rules, overrides and settings (lines 187 to 260)
--     Actions   the user's answer to an action of the assistant (lines 277 to 311), with the part
--               before the sleep and the part after it as two steps
--   Router      router.js, the routes in the hash of the address (lines 6 to 21); Tab the route that a
--               tab shows (lines 23 to 62)
--   Dashboard   data/index.js, the match, category and disposition of an event (lines 36 to 53)
--   Events      views/Events.jsx: Redact is what an export hides (lines 16 to 83), Page the list with
--               its filters and pages (lines 165 to 215)
--   Mutation    data/hooks.js and components/ConfirmProvider.jsx, how a view runs a write call
--   RuleForm    components/RuleModal.jsx: the guided form from and to a rule (lines 23 to 102), Save
--               its buttons (lines 429 to 476), Open how it opens (lines 397 to 424), Exclusion the
--               editor of an exclusion (lines 104 to 134), Picker the search of a service (lines
--               279 to 369)
--   Overrides   components/OverrideModal.jsx: the lists and headers that a user types, Form the
--               fields from a stored override and to an entry, Save the button
--   Settings    components/ServiceAdvancedSettings.jsx, the defaults and the changes of a
--               configuration (lines 4 to 85)
--   Services    views/Services.jsx: the list, Tables its constants, Save the dialog of a service
--   Table       the sort that the lists of services and of changes share
--   Audit       views/Audit.jsx, the list of recorded changes
--   Palette     components/CommandPalette.jsx, the search over everything
--   Editor      components/JsonEditor.jsx: Schema the known keys and values, Scan where the cursor
--               stands, Complete what is offered there
--
-- How the parts interact: the draft of an event is a builder, the builder is turned into the
-- fields of the form, the form into the controls of a rule, and each step back again when a rule
-- is opened for editing. The categories read the rule ids of the events. The forms of rules,
-- overrides and services run their requests through Mutation, whose effects (a dialog, a request, a
-- refresh, the end of a form) are a list in the order in which they happen. The dialog of a service
-- sends the changes that Settings finds. The palette leads to the views of the router.
--
-- Conventions. A field that the source reads as `String(x || "")` is a text, empty where the source
-- has no value, and one that it reads as `Array.isArray(x) ? x : []` is a list. Values whose shape
-- the source tests (the controls of a rule, an event, the tags of a match) are of the type `Value`.
-- `toLowerCase` depends on the Unicode tables and is a parameter `lower`; what a theorem relies on
-- is the record `LowerLaws`: it makes no text shorter, and no end of a text blank. A property of
-- `Object.prototype` is never meant by a key that the program looks up, and is not modelled, but for
-- the stored view of the router and what `LEGACY` gives for it. No
-- function but two needs fuel: every loop is a recursion on a list or a text. `to_hex` gets eight
-- digits, which is enough for the 32-bit hashes that it prints; `end_from` gets the length of the
-- document, at whose end it stops. `JSON.stringify`, `JSON.parse`, the encoders of a URI component
-- and the clock are parameters. A write call of the demo gives an error or `ok`, each with the state
-- that it leaves.
--
-- `Number`, `toLocaleLowerCase`, the comparisons by locale and `URL` are parameters as well. A model
-- of a React component is its state as a record with one function per handler and effect.
--
-- Not modelled: the markup and the styles of the components, the 3D scenes, the tables of sample data,
-- the demo's payload and the run of its assistant, the views Overview, Rules, Assistant, Settings,
-- Setup and Login, and the parts of the repository in other languages (the engine in Lua, the backend
-- in Python, the libraries in C).
pub mod Common
pub mod Text
pub mod Value
pub mod Exclusion
pub mod Category
pub mod Api
pub mod Demo
pub mod Router
pub mod Events
pub mod Dashboard
pub mod Settings
pub mod Overrides
pub mod Mutation
pub mod RuleForm
pub mod Auth
pub mod Editor
pub mod Table
pub mod Services
pub mod Audit
pub mod Palette
