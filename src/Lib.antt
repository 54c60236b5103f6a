-- ===== src/Lib.antt =====
-- The connection core of the mobile app (apps/mobile/src) and the message protocol
-- (packages/protocol): which daemons the phone is paired with, where their credentials are kept,
-- which of the discovered services is asked, how one connection lives, refreshes and ends, and how
-- an end-to-end message is sealed and opened.
--
-- The parts and how they interact. The paired instances are a model with an active pointer
-- (paired-instances.ts), kept in the Keychain as an index, a pointer and one entry each
-- (keychain-write-plan.ts, credentials.ts). The provider gives each instance a session; the set of
-- sessions, the reaction to the app's state and the retries are planned by session-registry.ts. A
-- session (connection-session.ts) orders the discovered services (discovery-match.ts), asks one
-- after the other at its preferred address (address.ts), and then refreshes its snapshot by
-- polling and by a stream. Requests that concern a daemon with several addresses try each
-- (host-fallback.ts). Answers are parsed by agent-contract.ts, errors are those of i18n/errors.ts.
--
-- The files. Paired: paired-instances.ts. Keychain: keychain-write-plan.ts and credentials.ts, the
-- Keychain being a record that each operation gives back, a read or a removal being a step of its
-- own, and `visited` the states in which a write may be interrupted. Registry: session-registry.ts
-- and discovery-lifecycle.ts, with the loops of syncModel in connection.tsx. Discovery:
-- discovery-match.ts, address.ts, host-fallback.ts and the conversion of discovery.ts. Errors:
-- i18n/errors.ts. Agents: agent-contract.ts. Session: connection-session.ts, whose promises and
-- timers are events of a state machine: Session/Loop has polling and the stream, Session/Probe the
-- loop of `connect`, Session/Events the provider's calls, the timers, and `step`. Names are those
-- of the source in snake case. Json models parsed values. Common has the shared helpers, Examples
-- concrete data and the theorems applied to it.
--
-- Around the core: AgentList is agent-status.ts and agent-filter.ts, Favorites agent-favorites.ts,
-- Notifications is notifications/doneDetection.ts with the effect of
-- notifications/DoneSoundProvider.tsx (Chime), Voice is voice/continuousReducer.ts, InstanceUi is
-- instance-ui-state.ts, Revocation instance-revocation.ts, Composer composerAction.ts and
-- voice/continuousControls.ts.
--
-- Requests is network.ts: the URLs, the authorized request with its errors, and the calls of an
-- agent; Requests/Pair has the calls over the hosts of a QR code, Requests/QrCode is pairing.ts.
-- Alias is instance-alias.ts. Protocol is packages/protocol/src/index.ts: Headers is
-- validateHeader, Wire the JSON of the protected header, Sealing `seal`, Opening `open`, whose
-- guards are functions over a store that is passed on, Pairing the pairing candidate and the
-- signed challenge, and Bytes the comparisons and the framing of what is signed. Preferences is
-- i18n/locale.ts, theme/appearance.ts and voice/config.ts. Native is
-- apps/mobile/modules/pinned-fetch and apps/mobile/modules/pinned-stream. History is
-- history-markdown.ts and the comparison of history-scroll.ts.
--
-- Representation. A text is a list of UTF-16 code units. A map or a record with computed keys is
-- an association list in the order of insertion. The identity of a service object, which `===`
-- compares, is its field `object`. A timer is whether it is set, its delay is not modelled. A poll
-- and a probe that wait are entries of the session's state, so that answers may come in any order.
-- `onChanged` only notifies and is left out. Every function ends by recursion on its data, and no
-- fuel is needed.
--
-- What is a parameter. `JSON.parse` and `JSON.stringify` (Json.JsonText), of which theorems ask
-- that a written value is read back and that the empty string is rejected; `Date.parse`; the
-- requests and the classification of their errors in host-fallback.ts; how opening a stream ends,
-- and the Metro development host (Session.Env), of which a theorem asks that a stream tells
-- nothing once its handle is dropped; the native fetch and its answers, the text of a number and
-- `encodeURIComponent` (Requests.Engine); base64, UTF-8, Ed25519 and HPKE (Protocol.Outside), of
-- which theorems ask that what is encoded is decoded, what is signed is verified, and what is
-- encrypted for a key is decrypted with it.
--
-- Not modelled: the screens, the rest of the React provider, the native side of the modules,
-- storage and audio, the drawing of keys by generateIdentity, the texts of errors, and the Go
-- daemon.
mod Common
pub mod Json
pub mod Paired
pub mod Keychain
pub mod Registry
pub mod Errors
pub mod Agents
pub mod Discovery
pub mod Session
pub mod Voice
pub mod AgentList
pub mod Favorites
pub mod Notifications
pub mod InstanceUi
pub mod Revocation
pub mod Composer
pub mod Protocol
pub mod Requests
pub mod Alias
pub mod Preferences
pub mod History
pub mod Native
pub mod Examples
