-- ===== src/Lib.antt =====
-- A verification library for leCRM, a multi-tenant CRM in Go.
--
-- The part that is modelled is the outreach engine, which writes to contacts in sequences of e-mails,
-- and the gates in front of every write. A contact is enrolled in a sequence. A worker takes a job in
-- a transaction on the tables of one workspace, asks the preflight whether the step may be sent, and
-- moves the enrollment along its state diagram by the one function that writes its state. Bounces
-- feed the suppression list, which the preflight reads. A poll of the mailbox pairs replies with the
-- steps that they answer and ends or postpones their sequences. Requests over HTTP pass the role
-- gates, and the writes of an agent pass the write guard with its dry run and its confirmation token.
-- Before the role gates stands the identity of a request: the host names the workspace, and a signed
-- session in a cookie, which a login gives and a revocation ends, or a service token in the header
-- names the user or the agent.
-- Beside it stand the service that sends e-mails and takes in the provider's events, the merges and the
-- duplicates of the CRM, the members whose roles the gates look up, and the rate limiter of the MCP
-- adapter.
--
-- Sequences, apps/api/internal/sequences:
--   State                state.go: State, legalTransitions, CanTransition, IsTerminal, Valid
--   State.Graph          the state diagram as a relation, with its paths
--   State.Listing        state.go: AllowedTransitions
--   Audit                audit.go, and the payloads of transition.go
--   Store                workers.go (runInTx) and the tables of packages/db/migrations
--   Transition           transition.go: Transition, emitAudit
--   Transition.Options   transition.go: config and its options
--   Transition.Effects   what a transition commits
--   Transition.Errors    what a transition answers without faults
--   Transition.Life      histories of transitions
--   Limits, Preflight    preflight.go: Limits, Preflight, PreflightDecision
--   Bounce               bounce.go: EvaluateBounce, ConsecutiveSoftBounces, ApplyBounce
--   Activation           glockapps.go: CheckTemplateActivation
--   Workers              workers.go: Work of the four workers
--   Correlate            gmailreply/correlate.go: correlateReplies, collectReferencedIDs
--   Mailbox              gmailreply/worker.go: pollMailbox, applyReply; cursor.go
--   Ooo                  ooo: Classify, Evaluate, ParseReturnDate, AddBusinessDays
-- Rbac, apps/api/internal/rbac: role.go; Rbac.Middleware is middleware.go and context.go.
-- WriteSafety, apps/api/capability:
--   Authorize            capability.go (Role, Principal, authorize), writesafety.go (AuthorizeWrite)
--   Confirm              writesafety.go: Confirmer, Issue, Verify
--   Digest               writesafety.go: ComputeEffectDigest
--   Guard                writesafety.go: GuardedWrite, Run
-- Email, apps/api/internal/email: the tables, and how a statement can fail
--   Email.Events         brevo/webhook.go: EventType, IsKnown, SuppressionReason
--   Email.Service        service.go: Send
--   Email.Service.Intake   service.go: IngestEvent
--   Email.Delivery, Outcome, Ingest   what a send and an event do
--   Email.Webhook        handler.go: handleWebhook, handleSend; brevo/webhook.go: VerifySignature
-- Crm                    apps/api/capability/capability.go (WriteTx) and the tables of the records
--   Crm.Merge            apps/api/internal/crm/dedup.go: MergeContacts, MergeCompanies, markDistinct
--   Crm.Duplicates       dedup.go: trigramSimilarity, ListContactDuplicates
-- Members                apps/api/internal/members: store.go
--   Members.Roster       store.go: ListMembers
--   Members.Handler      handler.go
--   Members.Refinement   the store as a map of roles
--   Members.Listing      whom the listing shows
--   Members.Guards, Access  the acting user's own role, and a removed member before the role gates
-- Auth, apps/api/internal/auth, and what is in front of the routes:
--   Codec, Session       session.go, state.go: signed texts, sessions of the first kind, login requests
--   SessionV2            session_v2.go: EncodeSessionV2, DecodeSessionV2; handlers.go: SessionFromRequestV2
--   SessionV2.Binding, Authentic   what opens a session, and what is taken for one
--   Cookie               cookie.go, and subdomainOf of apps/api/internal/workspace/middleware.go
--   Token                service_token.go: GenerateServiceToken, VerifyServiceToken, FingerprintToken
--   TokenStore           bearer.go, bearer_authenticator.go: VerifyBearer, Authenticate
--   TokenStore.Admin     service_token_store.go, service_token_handler.go: Create, Delete
--   Revocation           revocation.go: the tables, the Bloom filter, RevocationCache
--   Store                store.go: UpsertUser, WorkspaceBySlug, EnsureMemberWithRole
--   Store.Identity       whom an issuer and a subject name
--   Store.Accessible     store.go: GetUserProfile, ListAccessibleWorkspaces
--   Handlers             handlers.go: Me, Logout, Revoke, RevokeAll
--   Handlers.Urls, Switch   handlers.go: redirectURIFor, workspaceURL, Workspaces
--   Login                handlers.go: Login, Callback; oidc.go: BuildAuthURL, Exchange
--   Middleware           apps/api/internal/workspace/middleware.go and resolver.go, and the routes that
--                        apps/api/internal/http/server.go mounts behind it
-- RateLimit              apps/mcp/internal/ratelimit/ratelimit.go: Allow
-- Calendar is the part of Go's `time` that the engine uses, Encoding the part of its text packages
-- (base64, hexadecimal and decimal numbers, Split and Join). Common has the shared types and lemmas,
-- Tests the concrete inputs.
--
-- How the state corresponds. The tables of a workspace are the record `Db`, with the rows keyed by
-- their primary key in association lists; a column that nothing modelled reads is left out. A
-- transaction `Tx` is its own view of the tables. Each SQL statement is one `statement`: it may fail
-- (`Faults` says which), and after a failure the transaction refuses every further one and the commit.
-- A Go error is a value of the component's error type; a panic is an outcome of its own. A function
-- that takes a `tx` is a function from `Tx` to `Tx` and its outcome.
--
-- Numbers. UUIDs are numbers, 0 standing for the nil UUID. Times are nanoseconds from the year 0, in
-- UTC; the sessions and their revocations count whole seconds. An `int` is an unbounded integer: the
-- counts and limits in these parts are never added up to the 2^63 at which Go's would wrap,
-- except the expiry of a token, whose theorems carry the bound.
-- A loop is structural recursion on a list. Two run on fuel: the digits of a decimal number, with the
-- number itself, which has fewer digits than that; and the count of business days, with three days for
-- each weekday that is asked for, since a weekend has two.
--
-- Parameters. HMAC-SHA-256, the text of a UUID, the digest of the planned effects, river's insertion
-- of a job, the Gmail client, the classifier of replies, the role store, the handlers of the jobs and
-- the closures of a guarded write are arguments of the definitions that use them, and so are the
-- regular expressions, the language model and the Unicode tables of the classifier of absences, the
-- mail provider, its rate checker, and PostgreSQL's `lower`. In Auth they are SHA-256, HKDF, AES-GCM,
-- argon2id, the hash FNV-1a, encoding/json and the identity provider; random bytes, fresh identifiers
-- and the moment are given with each call.
--
-- Not modelled: HTTP and JSON decoding, logging, row locks (the transactions run one after another),
-- texts that only a reader sees, the renewal of Gmail's watch, the import, the export and the other
-- handlers of the CRM, the operations of the capability layer behind the gates, metadata and reports,
-- the list of the service tokens, and the administration tools.
pub mod Common
pub mod Sequences
pub mod Calendar
pub mod Rbac
pub mod Encoding
pub mod WriteSafety
pub mod Tests
pub mod Email
pub mod Crm
pub mod RateLimit
pub mod Members
pub mod Auth
