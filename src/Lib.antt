-- ===== src/Lib.antt =====
-- Verification library of the urban operations intelligence platform: the ingestion half, which
-- fetches raw records from public services and stores them with their manifests in the Bronze layer
-- of an object store, its commands, the audits of the stored data, the commands that create and
-- drop the tables of Trino, and the build of the Gold tables.
--
-- Parts and files:
--   Config       ingestion/config/source_config.py. The registry's models are records and data types
--                with the source's fields; `validate_source` runs their validators in the source's
--                order. `strategy_for` and `datasets_with_strategy` keep their names.
--   Socrata      ingestion/clients/socrata_client.py. `request_loop` is the loop of
--                `_request_with_retry`, `page_loop` that of `fetch_all_paginated`.
--   Fetchers     ingestion/backfill/fetchers/. `build_fetcher`, the four classes as constructors of
--                `Fetcher`, and their `fetch` in Fetchers.Run; Fetchers.Requests has what they send.
--   Loader       ingestion/loaders/s3_loader.py. Loader has texts, payloads and manifests, Loader.Paths
--                the keys, Loader.Writes `write`, `write_snapshot` and `write_monthly_shard`,
--                Loader.Stream `write_snapshot_stream`, Loader.Daily `write_daily`.
--   Facade       ingestion/backfill/facade.py: `upload_datasets` is `_upload_window`, and
--                Facade.Fetch.fetch_datasets is `_fetch_window`; the public methods keep their names.
--   Bulk         scripts/backfill/bulk.py, with `run_parallel` for `_run_parallel`, and
--                `gather_parallel` where its calls change no state.
--   Snapshot     ingestion/snapshot/collector.py and ingestion/snapshot/fetch.py.
--   BronzePaths  spark/transforms/bronze_paths.py.
--   Registry     ingestion/config/loader.py, on files that are what their YAML parses to.
--   CollectSnapshot  scripts/collect_snapshot.py and ingestion/snapshot/notify.py: `main` returns how
--                the process ends, the messages it sends, and the store.
--   BackfillCli  scripts/backfill/_common.py, _registry.py and main.py, on parsed arguments.
--   Dq           scripts/dq/. Dq.Vocabulary and Dq.Rules have the rules and their validation,
--                Dq.Comparators `evaluate`, Dq.Audit `expand` and `audit` of run_audit.py, Dq.Checks,
--                with Dq.Contexts and Dq.Chunks, `run_check`, Dq.Manifests `bronze_manifest_rows`,
--                Dq.Scorecard `failing_streaks`, Dq.Certify `decide` and `summarise_run`.
--   Gold         scripts/gold/build_gold.py. Gold.Tables has `TABLES` and `check_order`, Gold.ExtraGates
--                the gates of `TABLES`, Gold.Literals `sql_literal`, Gold.Placeholders
--                `seed_placeholders`, Gold.Gates `parse_gates` of gates.py, Gold.Selects and
--                Gold.Versions the SELECT statements, Gold.Builder what a table's rebuild reads,
--                Gold.Build `rebuild`, `check_gates` and `build`.
--   BronzeAudit  scripts/profiling/: BronzeAudit has the lines of a shard, BronzeAudit.Shards
--                bronze_duplicate_scan.py, BronzeAudit.Reconcile bronze_rowcount_reconcile.py with
--                `summarize_days` for its `summarize`, BronzeAudit.Integrity bronze_integrity_audit.py.
--   Ddl          scripts/ddl/. Ddl.Scan and Ddl.Parser have ddl_parser.py, with `parse_ddl` for
--                `parse_ddl_text` and the name that `parse_ddl_file` adds, Ddl.Apply the settings and the
--                statements of apply_ddl.py, Ddl.Commands its commands, and sync_partitions.py.
--   SnowfallEvents  `segment_events` and `gaps_between` of scripts/analysis/snowfall_events.py.
--   Strings      `strip`, `split`, `join` and `replace` of Python's texts, Strings.Lines `splitlines`,
--                Strings.Sorting `sorted` and sets of texts.
--   Calendar     the part of Python's `datetime.date` that all of these use.
--   Platform, Records, Manifest and Prelude have what the parts share; Tests has concrete runs.
--
-- How they interact: Bulk cuts a window into documents and calls Facade once for each. Facade asks
-- Config which datasets a call is about, makes a fetcher for each, and hands its records to Loader.
-- Snapshot runs its own walk through a portal and streams it into Loader. The state is that of the
-- object store, passed from call to call; a method is a function to a result, which is a value or
-- an exception, and the state that is left. A generator is what it yields and how it ends. The two
-- commands load a source through Registry and hand it to Bulk or to Snapshot; what these return
-- decides the exit code. An audit runs the rules that were loaded over the tables of Gold.Tables,
-- and its rows are what a certification reads back. The content audit reads the objects that Loader
-- has stored, asks Registry which datasets there are, and compares with what a portal counts
-- through the requests of Socrata. The DDL commands and the build agree on the names of schemas
-- (Gold.Selects). A build passes the state of the warehouse from table to table.
--
-- Parameters: the object store, JSON texts, digests, compression and `datetime.fromisoformat`
-- (Platform), the thread pool of a bulk run with more than one worker (Pool), the services
-- (Upstream: what a portal answers to each attempt, what the other services answer to a request),
-- and the clock. The laws of a store are in IsObjectStore: a call that returns has stored its
-- object, one that raises has stored nothing, and other keys are not touched. ParsesIso says that a
-- parsed timestamp has fields that fit the places of its ISO text. For the audit, the floats
-- (Numbers), the pattern that finds references to Silver, and the answers to the queries of a check
-- (Context) are parameters; for the build, Trino and its storage (Warehouse), the files that it
-- reads (Inputs), and which texts are numbers. Tabular has the laws of Trino: a count counts the
-- rows of a table, and an INSERT adds the rows of its SELECT to them. For the content audit, the
-- listing of the store, decompression, decoding, JSON and the equality of its values are a Reader,
-- and the portal's counts a Counter; Inverts says that decompression and decoding undo what the
-- loader did, RaisesNoExit that none of them raises SystemExit. For the DDL commands, Trino and the
-- bucket are a Cluster, and IsCluster has its laws: a listing shows what is under its prefix, a
-- drop leaves the objects of a table, and a deletion touches what it is given and, of that, leaves
-- only what it answers with. For the events, the amounts of snow are (Amounts).
--
-- Bounds and fuel: a request has five attempts, as in the source. A walk through pages has the
-- rounds that Upstream allows; one more than the rows of a table is enough, and a walk that has too
-- few ends in an error of its own, never in success. A walk through months has as many rounds as
-- there are months from the year 0 to the end of the window's last year, which exceeds what is
-- walked.
--
-- Taken as given: the clock stands still during one call of the facade; a read of the store
-- answers, with the object or with its absence; the message of an exception is modelled by the
-- values it is built from; an invalid document of the registry raises with the fields of its first
-- failing stage of validation; years are positive, and the texts of dates are right below the year
-- 10000. Negative `past_days` and lone surrogates are left out. Logging is left out. Upper and
-- lower case are those of ASCII, which the types of the columns are written in. A run of the audit
-- has one cadence.
--
-- Not modelled: what a thread pool does with the calls of a bulk run; the parsing of command lines;
-- dry runs of the Gold build, which print their statements; the text of the content audit's report;
-- that a build reads its gates through Gold.Gates, which it takes as given; the queries of the
-- checks; Spark jobs; forecast models; presentation; and the dashboard.
pub mod Prelude
pub mod Strings
pub mod Calendar
pub mod Config
pub mod Registry
pub mod Records
pub mod Socrata
pub mod Fetchers
pub mod Manifest
pub mod Platform
pub mod Loader
pub mod Facade
pub mod Bulk
pub mod BackfillCli
pub mod Snapshot
pub mod CollectSnapshot
pub mod BronzePaths
pub mod BronzeAudit
pub mod SnowfallEvents
pub mod Dq
pub mod Ddl
pub mod Gold
pub mod Tests
