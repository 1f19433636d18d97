-- ===== src/Lib.antt =====
-- A verification library of zen-cleaner, a Kubernetes controller that deletes resources when their
-- time to live has passed, under the policies of the custom resource ZenCleanerPolicy.
--
-- A reconcile evaluates one policy: it walks the resources of the target's kind, keeps those that
-- match the target, asks the safety gate, the conditions and the TTL about each, and gathers the
-- deletion list with its counters. The list is deleted in batches; each deletion waits for the rate
-- limiter, passes the gate again, reads the live object, compares the UID, and is retried with a
-- backoff. A receipt then tells what the cluster shows of each object, and the status of the policy
-- what was counted and when it runs next.
--
--   * Api.antt: the records of pkg/api/v1alpha1/types.go; Unstructured.antt: what is read of an object.
--   * Ttl.antt, Ttl/Path.antt: internal/ttl/evaluator.go, pkg/controller/field_path.go. Deadline.antt has
--     the deadlines as a relation, RoundTrip.antt the two path parsers.
--   * Backoff.antt: internal/backoff/backoff.go.
--   * Safety.antt: pkg/safety/safety.go, the gate.
--   * Controller/Conditions.antt, Controller/Selectors.antt: the conditions and the selectors of
--     pkg/controller/shared.go.
--   * Controller/Expiry.antt, Controller/Evaluation.antt: `shouldDelete` and `evaluateResources` of
--     pkg/controller/evaluate_policy_refactored.go, with the other path in reconciler_deletion.go and
--     evaluate_policy_shared.go.
--   * Controller/Deletion.antt: `performResourceDeletion` of pkg/controller/reconciler_helpers.go,
--     `deleteResource` of reconciler_deletion.go, `deleteResourceWithBackoffShared` and
--     `deleteBatchShared` of shared.go.
--   * Controller/Batches.antt: `resolveBatchSize` of pkg/controller/batch_config.go and the two loops over
--     the batches.
--   * Controller/Receipt.antt: pkg/controller/execution_receipt.go and execution_path.go.
--   * Controller/Integrity.antt: pkg/controller/policyintegrity.go.
--   * Controller/Target.antt: pkg/controller/target_capability.go.
--   * Controller/Status.antt: pkg/controller/status_updater.go and the requeue interval of reconciler.go.
--   * Controller/Tracking.antt: the maps of pkg/controller/reconciler_lifecycle.go, `getOrCreateRateLimiterShared` of
--     shared.go, `shouldRecreateInformer` of reconciler_informer.go, and label_selectors.go.
--   * Controller/Cycle.antt: `EvaluatePolicy` of evaluate_policy_refactored.go over these parts.
--   * Controller/Reconcile.antt: `Reconcile` of pkg/controller/reconciler.go with the handlers of
--     reconciler_helpers.go. Reconcile/Evaluation.antt fills its interface of an evaluation by `EvaluatePolicy`
--     and `ListResources` of adapters.go, Lifecycle.antt has sequences of reconciles.
--   * Controller/Resolver.antt: pkg/controller/gvr_resolver.go.
--   * Validation.antt, Validation/Gvr.antt: pkg/validation/validator.go and gvr.go. Defs.antt says what a valid
--     policy is.
--   * Webhook.antt: pkg/webhook/webhook.go; Admission.antt and Patching.antt say which requests are admitted
--     and patched, Defaulting.antt what the patches do.
--   * Config.antt: pkg/config/config.go; Config/Env.antt, Validator.antt, Service.antt and RateLimit.antt:
--     internal/config.
--   * Controller/Informers.antt: the shared informers of reconciler_informer.go, and the services and the
--     fallback of reconciler_evaluation.go.
--     Controller/Reconcile/Paths.antt has both paths of an evaluation, by the service or over the informer.
--   * Logging/Window.antt, Logging/Sampler.antt: internal/logging/sampling.go; Reference.antt says what the
--     limiter's window promises. Logging/Categories.antt: `CategorizeError` of internal/logging/errors.go.
--   * Errors.antt: internal/errors/classified.go; Errors/Context.antt: errors.go there and pkg/errors/errors.go.
--   * Health.antt: internal/health/health.go, pkg/controller/health.go and leadership.go, the lock observer of
--     internal/election/election.go, and the probes of cmd/zen-cleaner/main.go.
--   * Mcp.antt: internal/mcpserver, the adapter and its transport.
--   * Controller/Status/Writes.antt: the calls of status_updater.go on the API server, with their errors, as
--     `updatePolicyStatus` and `reconcileTargetCondition` make them.
--   * Prelude.antt: shared names, integers with the wrap-around of int64, maps, texts.
--   * Examples.antt: concrete objects and policies, with one example for each result.
--
-- State is passed explicitly. The API server, the rate limiter and the context are functions of the
-- log of what has happened before, so a proof for every such function covers every behaviour of
-- theirs; a log has its latest event first. A clock's readings are arguments. A Go map is the list of
-- its entries in the order of one range; a pointer is an `Option`; a time or a duration is a number of
-- nanoseconds, with the products that int64 wraps written out.
--
-- The retry loop runs on fuel: six rounds, one for each of the five steps of the default backoff and
-- one to leave the loop. The batch loop has a round for each resource and one to leave. Both are
-- shown to be enough.
--
-- Not modelled: the API machinery, label selectors, RFC 3339, discovery, sha256, base64 and ed25519,
-- which are arguments; the products of a float64, in the backoff and in the sampling rates; what the
-- entries of the log, the events and the metrics say, which decides nothing; what an informer watches;
-- the HTTP server of the webhook; the election itself, which is client-go; and the reporting commands.
pub mod Prelude
pub mod Unstructured
pub mod Api
pub mod Ttl
pub mod Backoff
pub mod Safety
pub mod Validation
pub mod Webhook
pub mod Config
pub mod Controller
pub mod Examples
pub mod Logging
pub mod Errors
pub mod Health
pub mod Mcp
