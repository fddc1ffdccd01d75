-- ===== src/Lib.antt =====
-- The device management server of a fleet of office plugins: app/main.py answers `/config`,
-- enrols devices, serves update campaigns and feature flags and runs the queue's worker;
-- app/postgres_queue.py is the queue of jobs in PostgreSQL; app/llm is the proxy through which the
-- plugins call language models. This library models the logic of these parts as functions and
-- states their properties. SQL statements are functions on the rows of tables, in the isolation
-- that PostgreSQL gives one statement; the clocks, the random identifiers and the outcomes of
-- calls to other systems are arguments.
--
-- The parts and their files:
--   - Prelude: lists, dictionaries in insertion order (Dict), texts as code points (Text), Python's
--     integers (Int) and their decimal texts (Numerals), the tests on numbers (Tests) and equality as
--     an interface (Equality). Json has the values of `json.loads`, without fractions.
--   - Version: `_parse_version_tuple` and `_infer_platform_variant` of app/main.py.
--   - Queue: the tables `queue_jobs` and `queue_job_dead_letters` of db/schema.sql and the operations
--     of `PostgresQueue`: Enqueue, Claim, Settle (ack, retry, move_to_dead_letter), Stats. An SQL row
--     that another transaction has locked is a row that the claim skips. Times are microseconds.
--   - Queue/Worker: `_run_queue_worker_loop` of app/main.py as a step relation: clients enqueue,
--     workers claim, settle one job at a time and stop, and the steps interleave in every order;
--     Locks and Backed have the rows that back the jobs of a worker. What
--     `_process_queue_job` does is an input: it succeeds, or fails with a text.
--   - Campaigns: the stages of a rollout and the directives (`_get_current_rollout_percent`,
--     `_build_update_directive`), Tables (`_resolve_active_campaign`), Actions (the creation and the
--     commands, of app/main.py and app/admin/services/campaigns.py), Progress (the reports of
--     devices), Enrichment (what `get_config` adds of flags and campaigns, over Flags). The MD5 of a
--     device's identifier is a parameter.
--   - Flags: `_resolve_feature_flags`, `_resolve_forced_flags` and the `features` of `/config`. It uses
--     the order of Version. Flags/Catalog has the statements of app/admin/services/flags.py on the catalogue of flags and
--     `reconcile_catalog_from_template`, and Flags/Template the flags that a template names.
--   - RuntimeConfig: the settings that administrators change while the server runs. The coercions of
--     app/runtime_config.py, Keys (`EDITABLE_KEYS`), Process (the baseline, `apply_state`,
--     `reload_overrides` and the encryption of services/crypto.py), Admin (`config_set` and
--     `config_reset` of app/admin/router.py with their statements), Sync (commits that interleave with
--     the statements of the reloads of the loop and of a request, as a step relation, whose argument
--     says whether two reloads may overlap: nothing in the code keeps them from it), Fleet (`enroll`, `heartbeat`, `reap_stale_pods`
--     and the loop of a pod). Fernet is the record `Fernet` with the law `FernetLaws`, and the printer
--     and parser of lists are `Lib` with `JsonLaws`.
--   - Config: the response of `/config`: the merge of a template, the overrides, the removal of
--     secrets; Endpoint joins them as `get_config` does, with Relay, the access to plugins and the
--     cache of responses (Endpoint/Cache). The template's loading, the substitution of variables, the
--     telemetry token and what Campaigns/Enrichment adds are fields of `World`.
--   - Suggest: app/admin/suggest_utils.py, the guards around a language model that fills in the
--     catalogue: the check of addresses, the reading of answers, the filter, RateLimit and PluginZip.
--     The parsers of URLs, JSON and XML and the DNS are parameters.
--   - Cohorts: `_resolve_device_cohorts` of app/main.py with its cache of groups; Campaigns/Enrichment
--     takes its result. SHA-256 and the regular expressions are parameters.
--   - Relay: the credentials of a device, in the table `relay_clients` or in memory:
--     `_relay_allowed_targets`, `_mint_or_rotate_relay_credentials`, `_verify_relay_credentials`,
--     `_relay_auth_from_request`. SHA-256 is a parameter.
--   - Llm: Throttle (llm/throttle.py, both stores and the interceptor), Traffic (llm/traffic.py),
--     Pipeline (llm/pipeline.py), Guardrails (llm/guardrails.py), Tokens (llm/tokens.py and the base64
--     helpers of services/crypto.py), Auth (llm/auth.py, over Relay and Tokens). HMAC, base64 and the
--     JSON printer and parser are the record `Crypto`, and the laws of base64 are `Base64Laws`.
--   - Examples: runs on concrete data.
--
-- Every loop of the source here is a recursion over a list or over the characters of a text, and
-- none of them runs on fuel, but for `decimal` in Prelude/Text, which prints a number on as much
-- fuel as the number, more than its digits. The loops of a server that run for ever are sequences of
-- iterations or of steps.
--
-- Not modelled: HTTP and the handlers that only join the parts, the admin pages, telemetry
-- tokens, the forwarding to backends, metrics and logs, connections, migrations; of the
-- runtime configuration the pages, the hooks after a reload (they empty the cache of `/config`), the
-- early bootstrap and the threads; of the response of `/config` its time and the platform's variant.
-- An exception of the database is modelled where the code gives it a meaning: the conflict target
-- that no index covers, a unique index, a write that fails during a flush, a purge that fails, a
-- quota store that fails, a query of `/config` that fails, the write of a device's
-- report that fails, a reload after a request that fails, a process that loses the database.
pub mod Prelude
pub mod Version
pub mod Json
pub mod Queue
pub mod Campaigns
pub mod Flags
pub mod Relay
pub mod Llm
pub mod Examples
pub mod RuntimeConfig
pub mod Suggest
pub mod Config
pub mod Cohorts
