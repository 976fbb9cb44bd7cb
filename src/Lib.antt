-- ===== src/Lib.antt =====
-- Yente, a desk that makes professional introductions by email: its deterministic core.
--
-- A person writes to Yente and becomes a member (src/domain/member.js). The match engine proposes a
-- pair; the workflow of the match (src/domain/workflow.js) sends each side a private preview, waits
-- for decisions through a veto window, and releases one joint introduction.
--
--   Prelude.*          shared notation: Boolean tests, texts as lists of character codes, objects
--                      used as maps, results of functions that may throw, times
--   Domain.Address     normalizeAddress of src/domain/member.js
--   Domain.Member.*    src/domain/member.js
--   Domain.Workflow.*  src/domain/workflow.js
--   Domain.Outbox.*    src/domain/outbox.js, one email as a job, and the enrollment invitation
--   Domain.Qualification.*, Domain.Matching.*
--                      src/domain/qualification.js, src/domain/matching.js
--   Store.Cells.*      one collection of the database, and the shapes of a repository's methods
--   Store.Matches.*    GraphMatchRepository of src/store/graph.js: proposals, the consent of both
--                      parties, the introduction
--   Store.Jobs.*       IntelligenceJobRepository of src/store/graph.js, the backlog of evidence
--   Store.Cursors      MailCursorRepository of src/store/graph.js
--   Store.Observations.*  the projection of ObservationRepository of src/store/graph.js
--   Store.Evidence     EvidenceRepository and DecisionRepository of src/store/graph.js
--   Waitlist.Capacity  src/waitlist/capacity.js
--   Waitlist.Repository.*, Waitlist.Csv.*, Waitlist.Inbound.*
--                      src/waitlist/repository.js, src/waitlist/csv.js, src/waitlist/inbound.js
--   Runtime.Lanes.*    createLanes of src/runtime/lanes.js, the pool of worker threads
--   Runtime.Desk.*     queue, drainOutbox and recordDelivery of src/runtime/yente.js, with the outbox
--   Runtime.Decisions.*, Runtime.Deadlines.*
--                      recordDecision, cancelPendingFor, the branch of the inbox for a member who
--                      stops, and advanceDeadlines, of src/runtime/yente.js
--   Store.Outbox.*, Store.Records.*
--                      OutboxRepository and the other repositories of src/store/repositories.js
--   Store.Keys.*       src/store/keys.js
--   Extract.Spans.*    src/extract/spans.js, the check of a quote against its source
--   Intelligence.Bound.*  src/intelligence/bound.js, how much of a source a model reads
--   Graph.Consent.*    how a reply is read, and the address of a side, of src/graph/consent.js
--
-- A camelCase name of the source is the same name in snake_case. A function that throws returns
-- `err`, with one constructor for each message. A record is returned anew, as the source clones it
-- before it writes. A time is a number of milliseconds since 1970, which the source keeps as the ISO
-- text of the same instant; a number past the last date of a `Date` stands for an invalid date. Lower
-- case is that of ASCII. Member ids are taken to be no names of `Object.prototype`.
--
-- The database is a package. `Store.Cells.Engine` is what the repositories use of it, with its laws: a
-- row reads back as it was last written, and a query finds the rows that are there. Every method of a
-- repository is synchronous, so the calls on a collection form one sequence, in any order. A method is
-- defined on the row of one id, which may be missing, and lifted to the collection; the loops over all
-- rows read them before they write, as the source does. The hash that makes an id is a parameter, and
-- so is the random fraction of a backoff. The search of a divergence counts its rounds, at most as
-- many as the quote has characters; no other definition uses fuel.
--
-- Where the source cuts a text, it counts UTF-16 units, and the model counts characters. The times at
-- which a job of the backlog is due are compared as numbers, where the source compares their ISO
-- texts, in the same order up to the year 9999. A letter counts as taken when the transport accepts it
-- with a message id, which its interface promises (src/mail/transport.js); an acceptance without one is
-- an attempt that failed. What a worker thread is given can always be posted.
--
-- Not modelled: the language models and their prompts, the mail transport and the IMAP reader, the web
-- pages, the command line tools, and the text of the letters.
pub mod Prelude
pub mod Domain
pub mod Store
pub mod Waitlist
pub mod Graph
pub mod Runtime
pub mod Extract
pub mod Intelligence
