-- ===== src/Lib.antt =====
-- Mirraura's dashboard: the React and TypeScript client under frontend/src.
--
-- The dashboard signs a user in, follows the detonation of samples over a socket, and lets an admin
-- review hashes, samples and quarantined files, manage users and read the audit log. A component's
-- state is a record, each of its handlers a function on it, and what a handler does besides (a call,
-- a toast, a callback) is a value beside the new state. A promise is modelled by the call that makes
-- it and by a function on its answer, `Outcome`, so that any other event may come between the two.
-- What can happen to a component is a step relation where the order of events matters.
--
-- The parts, their files and their sources:
--
-- Base: the native numbers, lists, JavaScript's strings as lists of UTF-16 code units with the
--   methods the source uses, decimal numerals, and the tests on them.
-- Types: frontend/src/types.ts.
-- Api: frontend/src/api.ts. Request is `ApiError` and `request`; Endpoints has one function per call,
--   Json the text of a body and of a saved file, with readers of both, Hex the text of a digest, Uri
--   the language's `encodeURIComponent`, for the paths of Endpoints, Base64 the text of a sample, Live
--   the messages and the buffers of events, Socket `connectLive`.
-- App: frontend/src/App.tsx. It owns the session, the live state and what the panels report; Messages
--   folds the live messages, Connected runs the sessions with their connections, Panels says which
--   page and panel is rendered, and Dashboard runs the page with a panel, which is mounted with its
--   tab, loads, and calls the page back. What the page relies on is the record Dashboard.Laws, and
--   Dashboard.Slots fills it for the three review panels. Together is the page with these panels and the
--   audit log (LogMount) at once: what one panel hands to the page or makes it do settles the others.
--   Together/Callbacks is the rule for what the panels leave alone, and Together/Told describes the
--   page's live state without it, by the messages, the uploads and the answers alone.
--   Detonation adds the upload panel, with the uploads and digests of each mount on their way.
--   Events are the events of the page outside them, with the clicks and keys on the tabs, and Screen is
--   what is rendered from all of it.
-- Review: what frontend/src/components/PendingHashApprovals.tsx, CorpusReview.tsx and
--   QuarantineReview.tsx have in common (`refetch`, `runDecision`, the dialog), over the types of the
--   key and of the entry. Review/Protocol is the life of such a panel with its calls on the way.
-- Hashes, Corpus, Quarantine: what each of the three adds, its form and what it renders.
-- Users: frontend/src/components/UserManagement.tsx.
-- Login: frontend/src/components/LoginPage.tsx.
-- Monitor: frontend/src/components/MonitorBanner.tsx.
-- AuditLog: frontend/src/components/AuditLogTable.tsx. Csv is the download, with a reader of its
--   format; Clock is `relativeTime`, Rows the rendered rows, Screen the rendered table and the saved
--   files, Saved reads one of them back, Loads the loads of its effects.
-- Upload: frontend/src/components/UploadPanel.tsx.
-- Feed: frontend/src/components/EventFeed.tsx. Time reads what `formatTime` writes.
-- Toast: frontend/src/components/Toast.tsx, the module's variables and the mounted hosts as one record.
--   Shown is its abstract specification, a history of toasts without timers, which Refinement and
--   Quiet are about.
-- Tabs, CopyHash, Dialog, Theme, Stats: frontend/src/components/Tabs.tsx, CopyHash.tsx,
--   ConfirmDialog.tsx, frontend/src/theme.ts with the theme of components/Header.tsx, and
--   components/StatStrip.tsx with DetectionsOverview.tsx. Stats/Bag is about the verdicts without
--   their order, a quotient of the lists, and which of them are counted, and Stats/Rows about the rows of
--   the audit log, which App takes for verdicts.
-- Presentation: frontend/src/components/Badge.tsx, Card.tsx, Skeleton.tsx and Wordmark.tsx, with the
--   tones and icons of a verdict.
-- VerdictPanel: frontend/src/components/VerdictPanel.tsx, and the verdict that App hands to it.
--
-- Parameters: the browser's `fetch`, its digest, its reading of dates and its formatters, the mapping
-- to lower case, and `String` of a number are arguments of what uses them. The answers of the server
-- are inputs. A double is an exact decimal, and no arithmetic is done on one. A step of the browser
-- that throws (an ill-formed text in `encodeURIComponent`, a storage that is blocked) is a value.
--
-- Bounds: numbers are natural; the buffers hold 500 events, a page 25 rows, and a sample at most 65536
-- bytes, as in the source. Functions are by structural recursion; the digits of a number
-- `n` are taken on fuel `n + 1`, which is more than it has digits.
--
-- Not modelled: class names and fixed texts of the markup, triggerDownload of the audit log, which is the
-- browser's, the mount of the page in frontend/src/main.tsx, and the programs outside frontend/, whose
-- answers are inputs.

pub mod Base
pub mod Types
pub mod Presentation
pub mod Api
pub mod Toast
pub mod Review
pub mod Hashes
pub mod Corpus
pub mod Quarantine
pub mod Users
pub mod Login
pub mod Monitor
pub mod AuditLog
pub mod Tabs
pub mod App
pub mod Feed
pub mod Upload
pub mod Stats
pub mod CopyHash
pub mod Dialog
pub mod Theme
pub mod VerdictPanel
