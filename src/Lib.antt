-- ===== src/Lib.antt =====
-- A model of the sovagent SDK: the library with which an agent or a buyer takes part in a market
-- of jobs. An agent polls the platform for jobs and signs what it accepts, receives items in an
-- inbox and writes them to its own identity on the chain, and pays with its own coins; a buyer
-- tops up its credit with a seller and signs envelopes that the platform verifies.
--
-- Files and what they model, with paths from the root of the repository:
--
-- * Prelude and the files below it: lists, texts, maps, signed numbers and JavaScript values over
--   the native numbers. A text is the list of its UTF-16 code units; a Map or a Set is a list in
--   insertion order.
-- * Signing (src/signing/messages.ts): the builders of the pipe-separated messages,
--   `buildAcceptMessage` to `buildDepositReportMessage`. How a number is written is a parameter.
--   Signing/Plain and Kind hold the proofs, Kind with the messages as one type.
-- * Credit (src/buyer/credit-watcher.ts): `CreditWatcher`. `maybeTopUp` is cut at its three
--   awaits, `maybe_top_up`, `after_send`, `after_sign` and `after_report`; what the call keeps is
--   a `Flight`, and `step` takes a signal or a settled promise. Credit/Window, Cap, Burst and
--   Unsigned hold the proofs.
-- * Payment (src/tx/payment.ts): `selectUtxos`, `buildPayment`, `buildMultiPayment`. A sum of
--   coins in floating point is abstract: the record `Coins` has what the builders use of it, and
--   `IsExact` says that a number of satoshis below 2 ^ 51 survives the way to coins and back,
--   which holds of doubles. Payment/Fewest, Value and Inputs hold the proofs.
-- * Wallet (src/agent.ts, from `sendCurrency` to `transferFunds`): the fields `_spentUtxos` and
--   `_pendingChange`. Sends are serialised by `serializeSend`, so a send is one function of the
--   wallet, and `run_sends` a history. Wallet/Fresh, NoDoubleSpend and Destination hold the
--   proofs.
-- * Jobs (src/agent.ts, `checkForJobs`, and src/jobs/accept-retry.ts): the fields `seenJobIds` and
--   `acceptFailures`. Jobs/Retry and Memory hold the proofs.
-- * Canonical (src/crypto/canonical.ts): `validateEnvelope`, `signCanonical`,
--   `verifyCanonicalSignatures`, `buildRequestAccessEnvelope`. `Date.parse` may give no number.
--   Canonical/Window, Threshold and Signed hold the proofs.
-- * Access (src/crypto/envelope.ts and src/crypto/types.ts): `verifyAccessRequest`,
--   `verifyAccessEnvelope`, `openAccessEnvelope`, `mintAccessEnvelope`. The store of nonces behind
--   `isReplay` is explicit. Access/Authentic, Minted and Request hold the proofs.
-- * Inbox (src/inbox/vdxf-gate.ts) with Inbox/Batch and Inbox/Commit (src/agent.ts,
--   `acceptInboxBatch`; sizes and keys of src/onboarding/vdxf.ts): the gate of one item, and the
--   five phases of a batch; Inbox/Single has `acceptReview`, `acceptAttestationTuple` and
--   `acceptJobRecord` of src/agent.ts, which differ in the type of the item only. Inbox/Gate,
--   Accepted, Buckets and Partition hold the proofs.
-- * Workspace (src/buyer/workspace.ts): `handleMcpCall`, `resolveSafe`, `isExcluded` and the three
--   tools. The disk is its files by absolute path, with no symbolic links; what a listing holds
--   and whether a write succeeds is part of a call, and a write that fails leaves the files as
--   they were. Paths resolve as Node does on POSIX. Workspace/Limit, Disk and Bypass hold the
--   proofs.
-- * Onboarding (src/onboarding/finalize.ts, `finalizeOnboarding`): the stages of the state file. A
--   run is what the hooks, the prompts and the platform do in it; the state is that of the file,
--   whose writes are taken to succeed, with the list of what was done outside. Onboarding/Once,
--   Ready and Again hold the proofs.
-- * WorkspaceClient (src/workspace/client.ts): `assertSafePath`, `validateMcpResult`, and with
--   WorkspaceClient/Calls the class `WorkspaceClient`. A step is an event: a method call with the
--   random id of its message, what a listener of the socket gets, or a timer; `outcomes` is how
--   the promises of calls were settled. WorkspaceClient/Reply, Ledger, Paths and Sent hold the
--   proofs; Paths is about Workspace too.
-- * History (src/identity/history.ts): `extractVdxfHistory` and `decodeReviewHistory` on snapshots
--   whose heights are natural numbers. History/Order, Covered and Earliest hold the proofs.
-- * Session (src/buyer/session.ts, `BuyerSession`): the start of a job with what it pays and the
--   wait for its verification, the session until its end, and in Session/Replies `sendAndWait` as
--   a machine of waits, messages and timers. The wait is on 61 rounds of fuel, which is enough
--   since its polls are 15 seconds apart and it lasts 15 minutes. Session/Wait and Pay hold the
--   proofs.
-- * Chat (src/chat/client.ts with `cycleBackoffDelay` of src/chat/reconnect-config.ts):
--   `ChatClient`. A socket keeps the flag and the timer of the promise that waits for it, and the
--   packets since it last lost its connection, which the socket library keeps until it connects;
--   sockets that were replaced are kept, since their timers, and their listeners where they were
--   not removed, go on. Chat/Step has the listeners as `step` on events; a handler is a number. A
--   closed socket connects no more, and a server forgets the rooms of a client that disconnects,
--   as the socket library documents. Chat/Rooms, Kept, Synced, Cycles and Stale hold the proofs.
-- * Privacy (src/privacy/attestation.ts): the payload of a deletion attestation, signing it, and
--   the checks of its format and its signature. The canonical form, the signatures and the floor
--   of a number are parameters. Privacy/Attested holds the proof.
-- * Lifecycle (src/agent.ts, `start` and `stop`): the flag, the interval and the calls of `start`
--   that wait for their first check; `stop` also forgets the coins of Wallet. Lifecycle/Intervals
--   and Overlap hold the proofs.
-- * Dispatch (src/agent.ts, the handlers of `connectChat`, `autoDeliver`, `sendChatMessage`): an
--   event of the chat server and what it leads to, as the list of its effects. A review runs
--   Inbox/Single, and a message is sent by Chat. Dispatch/Permitted holds the proofs.
--
-- How the parts meet: Credit builds its report with Signing; Wallet pays through Payment;
-- WorkspaceClient is the other end of Workspace; Dispatch hangs on the handlers of Chat and runs
-- Inbox/Single; Lifecycle empties Wallet; Jobs and Inbox are fed by what the platform answers,
-- which is always an argument. A request that throws is `none` or a constructor of its own. But
-- for the wait of a session, no definition runs on fuel: every other loop of the modelled code
-- goes over a finite list, and a history is a list of events.
--
-- Conventions. Amounts of the credit watcher are counted in a smallest unit. Times are in
-- milliseconds, those of a canonical envelope from the year 0; those of an access envelope are in
-- seconds. Listeners of events are taken not to throw, except where the job poll catches what they
-- throw after an accept. Error messages are dropped; which error it is stays.
--
-- Not modelled: transaction scripts, keys, signatures and serialisation, which are libraries; the
-- HTTP and socket clients; the scanners under src/safety/scanner, which are a copy of another
-- project's; the serialisation of src/onboarding/vdxf.ts beyond the keys and sizes named above;
-- the validators and prompts of the onboarding, pricing, the scan that finds what to exclude,
-- webhooks and the command-line skill.
pub mod Prelude
pub mod Signing
pub mod Chat
pub mod Credit
pub mod Payment
pub mod Wallet
pub mod Jobs
pub mod Canonical
pub mod Inbox
pub mod Access
pub mod Workspace
pub mod Onboarding
pub mod History
pub mod WorkspaceClient
pub mod Session
pub mod Privacy
pub mod Lifecycle
pub mod Dispatch
