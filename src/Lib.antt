-- ===== src/Lib.antt =====
-- A model of the job store of treeherder-service: how submitted jobs are queued, loaded, updated,
-- cancelled, summarised and removed.
--
-- A submission is queued in the object store; workers claim rows of it and load them in batches
-- into the tables of a project, together with reference data and the result sets of pushes.
-- Statements on MySQL are functions on tables, lists of rows in the order of their ids; a method
-- that may raise answers with a `Result`, and a sequence of calls is a list of operations. A table
-- of MySQL is read without regard to its isolation levels: one statement runs after the other.
--
--   Prelude       shared names, dictionaries as association lists, Python's texts and sorting
--   Json          values of `json.loads`, Python's exceptions, and what holds of every answer
--   JobData       the class JobData of jobs.py (Context)
--   Guid          treeherder/etl/common.py: generate_job_guid, get_guid_root
--   Objectstore   treeherder/model/derived/jobs.py and treeherder/model/sql/objectstore.json:
--                 store_job_data, claim_objects, mark_objects_complete, mark_object_error
--                 (Schedule: the calls of many workers; Rows, Valid, Claims, Ownership, Submission)
--   Jobs          the job table: create_job_data, update_job_data, the cancellations, set_state and
--                 update_coalesced_guids of treeherder/model/sql/jobs.json (Ops, Final, Cancel)
--   Ingest        load_job_data of jobs.py. Structs: _load_ref_and_job_data_structs; Ids:
--                 _set_data_ids, _load_jobs, the job ids of retries; Incoming: _remove_existing_jobs;
--                 Load: the whole method (Bounds, Retries, Refines, Existing, Unread,
--                 Logs)
--   Notes         the notes, classifications and bugs of jobs of jobs.py (Classified)
--   Artifacts     load_job_artifacts of jobs.py with its adapters (Rows)
--   RefData       treeherder/model/derived/refdata.py: what the add_* methods collect (OptionSets,
--                 Lookups, Linked); how the process methods write it to the tables of
--                 treeherder/model/sql/reference.json and read the ids back (Tables, Process, All;
--                 Written, Found, Platforms, Complete)
--   ResultSets    store_result_set_data of jobs.py (Tables, Insertions, Repeat)
--   Performance   treeherder/etl/perf_data_adapters.py: calculate_series_data, and
--                 get_median_from_sorted_list (Bounds, Medians); Series: store_performance_series (Merge)
--   Eta           the rows of calculate_eta of jobs.py (Medians)
--   Cycle         cycle_data of jobs.py and of treeherder/model/tasks.py (Deletes)
--   Query         UrlQueryFilter of treeherder/webapp/api/utils.py and _process_conditions of jobs.py
--                 (Placeholders, Filter)
--   Buildapi      treeherder/etl/buildapi.py: find_job_guid (Requests), and the transformations of
--                 pending and running jobs with get_resultset of treeherder/etl/common.py (Queued,
--                 Additions, Delivered)
--   Pushlog       treeherder/etl/pushlog.py with OAuthLoaderMixin of treeherder/etl/mixins.py: the
--                 transformation and the runs (Missing; Transformed, Progress, OnHold)
--   LogParser     treeherder/log_parser: the parsers of parsers.pyx (Errors, Header, Steps, Details),
--                 artifactbuilders.pyx and artifactbuildercollection.pyx (Builders), the search
--                 terms and suggestions of utils.py (Terms, Suggestions), the task parse_log (Task);
--                 what the steps of a log are (Sections, Spans, StepsValid, Running, Whole, AskedOnce)
--   Retry         retry_execute of treeherder/model/utils.py
--   Tests         the theorems at concrete inputs
--
-- Numbers are natural numbers: ids, counts and timestamps; measurements are integers in their
-- units of two decimals, and durations are integers too. Every loop of the program goes over a
-- list, so the functions recur on lists; the retries of a statement recur on the number of those
-- left, twenty at first, and the task cycle_data on its number of iterations. Regular expressions,
-- hashing, the printing and parsing of numbers and JSON, the clock, and the ids that the database
-- answers with are parameters, as is the root of a variance. Where a method writes to the master
-- and reads what it wrote from the host for reading, that host is a parameter too: it shows some
-- tables while the master has others, and may lag.
--
-- Not modelled: the connections, the log messages, the messages to sockets and queues, the storing
-- of log references and performance artifacts, the get_or_create methods of reference
-- data, the extraction of complete jobs, the names of builders
-- (treeherder/etl/buildbot.py, a parameter) and the views of the web service.
mod Prelude
pub mod Guid
pub mod JobData
pub mod LogParser
pub mod Buildapi
pub mod Notes
pub mod Pushlog
pub mod Json
pub mod Objectstore
pub mod Jobs
pub mod Retry
pub mod Performance
pub mod Eta
pub mod Cycle
pub mod Query
pub mod RefData
pub mod Ingest
pub mod ResultSets
pub mod Artifacts
pub mod Tests
