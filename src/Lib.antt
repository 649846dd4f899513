-- ===== src/Lib.antt =====
-- A model of aocr, a container registry with its own auth service, and theorems about it.
--
-- The program. Clients of the registry ask the auth service (auth/src) for a token: the handler of
-- /v2/token in createApp.ts parses the requested scopes (scope.ts), takes the credentials from the
-- header and validates them by the first strategy that applies (serverHelpers.ts), cuts the access
-- of a cluster PAT down by a policy (clusterPat.ts), and signs what is left. A token that is a
-- wrapped envelope of upstream credentials (upstreamAuth/wrap.ts) is proved against the upstream
-- registry of each requested repository (upstreamAuth/route.ts, strategy.ts), and the proofs are
-- kept in a cache (upstreamAuth/proofCache.ts).
--
-- The registry tells the hooks service (hooks/src) of pushes, pulls and deletions; the service keeps
-- a row for each tag, with the retention that its suffix asks for, and reaps what is obsolete after
-- a push and on a schedule. Other services ask it whether a blob is there, and to import an image of
-- the mirror into the namespace of a cluster.
--
-- The files.
--   Prelude: the library's names that all modules share, lists and tests over native numbers.
--   Text: JavaScript strings as lists of UTF-16 code units, and the methods that the source calls;
--     Text/Regex: patterns, with a matcher by derivatives. JsMap: `Map` in order of insertion.
--   Auth/Scope (scope.ts): parse_scope is parseScope, parse_requested_scopes is
--     parseRequestedScopes, whose loop is merge_scopes.
--   Auth/ClusterPat (clusterPat.ts): parse_cluster_pat_entries and evaluate_cluster_pat_scope.
--   Auth/Credentials, Auth/Profile, Auth/Validation (serverHelpers.ts): the header, the configured
--     tokens, the profiles, and validate_presented_token with one function per strategy.
--   Auth/KeyId (serverHelpers.ts): compute_libtrust_key_id, the id of the signing key over a parameter
--     for its fingerprint, and get_database_connection_string; Auth/KeyId/Reading reads an id back.
--   Auth/Token (createApp.ts): handle_token is the handler of /v2/token. It returns the response,
--     the statements of the database sync, and the proof cache it leaves.
--   Auth/Setup, Auth/Images (createApp.ts, imageList.ts): the configuration, and the handler of
--     /v1/images with its pages.
--   Upstream/Adapters (upstreamAuth/adapters, index.ts): the probes; probe_host is the probe that
--     getProbeForHost finds.
--   Hooks/Provenance, Hooks/TagRetention (hooks/src/util/tagRetention.ts): inferredProvenance, and
--     parse_tag_retention with the pattern as exec_tag.
--   Hooks/Registry: the registry behind `fetch`, with the log of the requests. Hooks/Mount
--     (util/mountFromRepo.ts): mount_all_blobs, collect_blob_digests, write_manifest.
--   Hooks/Patterns, Hooks/Access, Hooks/Import, Hooks/Internal (controllers/ImportAPI.ts,
--     InternalAPI.ts, HookAPI.ts): import_image and blob_presence are the handlers.
--   Hooks/Database: the tables of db/init.sql and the SQL statements on them. Hooks/Events
--     (controllers/hookEvents.ts): process_registry_events, one function for each kind of event.
--   Hooks/Reaper (util/imageRetention.ts): Settings are the environment variables, Selection is the
--     query, with a function for each of its table expressions, Removal the loop over its rows, Job
--     the call that a push triggers. Reaper/Confirmed is about the registry's part in a removal,
--     Import/Recorded about what the push of an import leaves in the tables. Hooks/Schedule (commands/reap.ts): the job of the cron.
--   Upstream/Route (route.ts), Upstream/Wrap (wrap.ts), Upstream/Strategy (strategy.ts).
--   Upstream/ProofCache (proofCache.ts): a record of the entries, the bounds, and the history of
--     the buffers that were overwritten; lookup_proof is `get`, record_proof is `record`. The
--     statements about all runs are by induction on a list of calls; Recency keeps the order of the
--     last uses beside the cache.
--   Examples: concrete requests, and the theorems applied to them.
--
-- Conventions. What throws is an Option or a result type of its own. State is passed: a function
-- that reads or writes the proof cache takes it and returns it. Where the source awaits a probe,
-- other requests may use the cache: the strategy applies a parameter `others` there, about which
-- the theorems assume only that it keeps the property they are about. Loops recurse on their list;
-- enforce_capacity has fuel, the number of entries, which is enough since each round evicts one, and
-- the decimal digits of a number have the number for their fuel. Times are milliseconds, or seconds in
-- the payload of a token; they stay in the range of Date, and a number of an envelope is an integer.
--
-- The reply of the registry to a request of the hooks service may depend on every request before it,
-- so it stands for any state of the registry that the service's own requests change. Whether Postgres
-- carries the statements of an event or a deletion out is an argument. A table holds its rows in a
-- list; an upsert replaces the row of its key in place.
--
-- Parameters. The runtime's UTF-8, base64 and JSON coders, AES-GCM and SHA-256, toLowerCase, numbers,
-- the HTTP client, the registry, the signer, the collation of the database; for the strategy alone,
-- the answers of the probes and what other requests do to the cache.
--
-- Not modelled. Metrics, logging and the startup of the services have no logic of their own, and the
-- web front end is a static site of copied components. Of the token endpoint's database sync the model
-- has the statements of a run without failures, and whether it ends in a ROLLBACK that throws, which
-- changes the response; any other failure does not. The primary keys and the lengths of columns are
-- left to the argument that says whether Postgres carries statements out. What Postgres leaves open is chosen: of rows that an order does not tell apart, and of overrides with
-- prefixes of one length, the first of the list. The clock of a reap is one instant.
pub mod Prelude
pub mod Text
pub mod JsMap
pub mod Auth
pub mod Upstream
pub mod Hooks
pub mod Examples
