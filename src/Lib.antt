-- ===== src/Lib.antt =====
-- AgentTier: sandboxes for agents on Kubernetes. A controller reconciles Sandbox objects, a router
-- serves HTTP. This library models the controller's own logic and parts of the router's.
--
-- The parts, and the code that each file models:
--
-- Lifecycle: Phase (api/v1alpha1/sandbox_types.go, SandboxPhase), Actions
-- (pkg/controller/state_machine.go, and ValidateStateTransition of pkg/controller/lifecycle.go),
-- Timeouts (pkg/controller/timeout.go), Backoff (calculateBackoffDelay of lifecycle.go).
--
-- Template: pkg/controller/template_resolver.go. Keyed is mergeEnvVars and mergeFiles, Spec the
-- specs (api/v1alpha1/sandboxtemplate_types.go) and their merge, Chain the resolution of a
-- reference with its depth and cycle checks, Config MergeSandboxWithTemplate. What the resolver
-- passes on unread is a parameter (`Parts`), as are the templates that the API server holds.
-- reconcileCreating calls it.
--
-- Reconcile: the handlers of pkg/controller/sandbox_controller.go. World has the state of one
-- reconcile: the sandbox in memory, the copy that the API server stores, and the log of calls. A
-- handler is a function on it that returns a result or an error (`M`), in the order of the code's
-- calls; what a call answers is a parameter (`Env`), which may depend on all calls before it. Pods
-- has the tests on pods, Handlers the handlers of the phases Running, Stopped and Error, Cleanup
-- that of deletion with the revocation of the key (pkg/controller/scoped_key.go,
-- pkg/apikeystore/store.go), Creating the last two steps of reconcileCreating, Provisioning the steps
-- before them and dispatch, Manual StopSandbox and ResumeSandbox. Stopping, Restarting, Deleting and
-- Isolation are the proofs; Restarting/Budget has the step relation between stored sandboxes, in
-- which the phase Creating is a step that keeps the restart count. The clock is read once where
-- timeouts are checked.
--
-- WarmPool: pkg/controller/warmpool/pool.go. Pods is what is read of a pod, Config Normalize and
-- GetStatus, Claim the claim of a ready pod, Scaling reconcilePool, scaleDown and createPoolPod
-- over the pods and volumes of the namespace, Orphans Reconcile and cleanupOrphanedPools. Race has
-- many claims against the history of one API server with optimistic concurrency (`ApiServer`,
-- `Optimistic`, `Event`, `Claimers`).
--
-- Governance: Policy and Store (pkg/governance/policy.go) and Engine (pkg/governance/engine.go).
-- Quantities and durations are parsed and compared by a parameter (`Formats`). Store is
-- ConfigMapStore over a client of the API server (`Client`, `Serves`), with what other writers do
-- between a load and its save as a function. The reconcile loop does not use governance: the
-- router asks it before it creates a sandbox.
--
-- Backup: pkg/controller/backup/scheduler.go, one pass of the scheduler, which runs beside the
-- reconciler.
--
-- Router: ScopedKeys (pkg/router/scopedkey_middleware.go), RateLimit (pkg/router/ratelimit.go)
-- with the token buckets of golang.org/x/time/rate as an interface (`Limiters`, `IsAdditive`,
-- `HasBursts`), and Terminal (pkg/router/terminal/manager.go), the sessions and the two maps that
-- hold them; the closing of many sessions is one step there.
--
-- Router/Access has the access checks of pkg/router/handlers.go and the sharing of a sandbox; its
-- module Mirror compares them with the copy in webhook_delivery.
--
-- Keys: API keys. Cache and Validator are pkg/router/auth/apikey.go, Labels and Store
-- pkg/apikeystore/store.go over an API client and a JSON codec (`Client`, `Json`), Handlers
-- pkg/router/apikey_handlers.go, Minting the keys that the controller makes
-- (pkg/controller/scoped_key.go). Maps has the Go map as a list of entries. The validator's calls
-- wait for the store while others run: Validator/Requests has their steps, each with the clock's
-- reading, and Gone and Revocation what follows after a deletion.
--
-- Agent: pkg/router/agent/invoke.go. Tracker is concurrencyTracker with the invokes that hold a
-- place, Quote the command line, Invoke handleInvoke, Cancel handleInvokeCancel. The exec bridge and
-- the runtime in the pod are parameters. In Quote/Words a shell's splitting of a line into words
-- is written down, with the shell's own lists of blanks and of characters that mean something to it.
--
-- Webhook: pkg/controller/webhook_delivery. Subscription (subscription.go, events.go, access.go),
-- Events (listNewEvents), Cursor (its proofs), State (state.go; State/Store has the ConfigMap with its
-- resource version, `Client` and `Serves`), Deliverer (the rest of
-- deliverer.go). The loop RunOnce reads the cursor, lists the events, dispatches them and saves
-- the cursor; sorting is a parameter, with the hypothesis that it permutes and orders.
--
-- Prelude has the shared names, tests, lists, texts and integers; each part's Tests module has the
-- theorems at concrete inputs.
--
-- Loops are structural recursion over lists; the retry loop counts its remaining rounds, one less
-- than the number of attempts, a claim its three attempts, and a chain of templates the depth that
-- is left of ten. The backoff that doubles between retries is within 64 bits for the default of five
-- attempts. Times and durations are whole nanoseconds and do not overflow, except where the
-- backoff shifts, which wraps at 64 bits, and where a ceiling is converted to 32 bits. A Go map is
-- a list of its entries or a function on its keys. Log lines and messages for people are left out,
-- but for the status messages that the controller itself reads again.
--
-- Not modelled: the bodies of ensurePVC, ensureNetworkPolicy and the runtime token, the pod's spec,
-- SetConfig of the warm pool, network policies, authentication but for API keys, the HTTP handlers
-- but for those above, share links, port forwarding, the configure endpoint, the sandbox runtime, the
-- client and the CLI; HTTP, JSON, HMAC, websockets and Kubernetes itself; generated code.
pub mod Prelude
pub mod Lifecycle
pub mod Governance
pub mod Backup
pub mod Template
pub mod Reconcile
pub mod WarmPool
pub mod Keys
pub mod Agent
pub mod Router
pub mod Webhook
