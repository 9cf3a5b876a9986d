-- ===== src/Lib.antt =====
-- Verification of Retro-Doc: models of its backend and its worker, and theorems about them.
--
-- Retro-Doc analyses a repository of Java sources. The backend resolves a git remote to a
-- commit, shares one analysis of it among users, records an attempt as a pipeline run, claims
-- and dispatches it to the worker, and reconciles runs whose work has died. The worker builds a
-- control flow graph and a data flow graph of each method and writes them to MongoDB. Paths are
-- from the repository's root.
--
-- Shared modules:
-- - Prelude: tests on native numbers, lists, texts (lists of code points) and dictionaries
--   (association lists in insertion order).
-- - Digraph: the part of networkx that the builders use, as a record of operations and laws;
--   Digraph/Listed is an instance on lists, Digraph/Numbered says that the nodes are numbered
--   from 0.
-- - Java: the javalang trees that the builders inspect.
-- - Prelude/Results and Action: a value or an exception, and code that changes a state and may
--   raise.
-- - Strings: the methods of Python's `str` and `bytes` that the services use.
-- - Mongo: a collection with unique indexes, as a record of operations and laws; Mongo/Kept is
--   an instance on lists.
--
-- The worker:
-- - Cfg is worker/app/graphs/service/cfg_builder/java.py. Cfg/Label has the labels, Cfg/Graph
--   the nodes, edges and keys, Cfg/Statement `_process_statement` with its handlers, Cfg/Method
--   `_build_method_cfg`. The graph and the counter are passed as a `Build`.
-- - Dfg is worker/app/graphs/service/dfg_builder/java.py. Dfg/Extract has `_extract_vars`,
--   Dfg/State `_DFGState` with `_add_node` and `_add_edge`, Dfg/Analysis the statement analysis,
--   Dfg/Method `_build_method_dfg`.
-- - Symbols is worker/app/graphs/service/symbol_table_builder/java.py. Symbols/Table has
--   `_add_symbol`, `_get_type_name` and `_extract_annotations`, Symbols/Build the declarations
--   and `build`, with the constructors, interface fields and enum members that it does not look
--   at; Symbols/Numbered and Symbols/Complete say what the table lists.
-- - Writes is `mongodb_retry_insert_many` of worker/app/core/database.py. Writes/Bulk is the
--   unordered bulk write as a record of operations and laws, Writes/Throttled an instance that
--   throttles.
--
-- The backend:
-- - Runs has the run document of backend/app/pipeline/models.py, `_probe_instance`,
--   `reconcile_pipeline_run` and `start_orchestration` of backend/app/pipeline/service.py, and
--   `_claim_next_run`, `_dispatch_run`, `_retry_failed_run` and `_relaunch_at_current_version`
--   of backend/app/repos/service.py. Each takes the collection and gives back what it holds
--   afterwards; what others write while the worker is asked is an argument.
-- - Links is `join_repo` with `_acquire_repo_link`, and `delete_repo`, of
--   backend/app/repos/service.py, with the ownership check of backend/app/users/dependencies.py,
--   which reads the link that is then deleted by its `_id`: requests that take one step on the
--   database at a time, interleaved, as a step relation.
-- - Git is backend/app/repos/git.py, without the HTTP request. Git/Pkt is `_iter_pkt_lines` with
--   `int(_, 16)`, Git/Refs `_parse_advertised_refs`, Git/Resolve `resolve_git_ref`, Git/Name
--   `repo_name_from_url` with `_git_blob_path` of backend/app/repos/service.py. Git/Frames and
--   Git/Advertisement print what git documents.
-- - Repos composes these: Repos/Model has the documents of backend/app/repos/models.py and
--   backend/app/users/models.py, their indexes and the lookups of live repositories;
--   Repos/Create `_acquire_repo_link`, `_join_analysis` and `_start_new_analysis`, Repos/Analyze
--   `analyze_git`, Repos/Relaunch `_relaunch_at_new_version` and `relaunch_repo`, Repos/Upload
--   `analyze_file` and `create_repo`, Repos/Read `get_repos`, `get_pipeline_with_attempts`,
--   `join_repo` and `update_user_repo`, all of backend/app/repos/service.py. An operation takes
--   the state of all collections and gives back the result or the exception with the state after
--   it; what others write between a lookup and an insertion is an argument.
-- - Languages is the cache of the supported languages and `validate_languages` of
--   backend/app/languages/service.py.
-- - Versions is the version cache of backend/app/pipeline/service.py, and `_is_behind` and
--   `is_stale` of backend/app/repos/service.py.
--
-- Parameters: networkx, MongoDB, the order of versions of the packaging library, the answers of
-- the worker and of a git remote, `urlparse` on the texts that it takes, which bytes are UTF-8,
-- MongoDB's regular expressions, SHA-1, SHA-256, and `str` of a javalang node.
--
-- Recursion is on the syntax, on lists, and on the number of attempts. `chunks` slices a list in
-- as many steps as there are documents, which is enough for a positive size, and raises for size
-- 0 as `range` does; `show_nat` takes one step more than the number itself. `pkt_lines` takes as
-- many rounds as there are bytes, and a round passes over four of them at least.
--
-- Not modelled: the AST parser, so `build` over the declarations of a file is left out of both
-- graph builders; the log, the waits between attempts, HTTP and the event loop; the queries of
-- files and of their documents in backend/app/repos/service.py, the chat, the deep analysis, the
-- authentication and the frontend.
pub mod Action
pub mod Cfg
pub mod Dfg
pub mod Digraph
pub mod Git
pub mod Java
pub mod Languages
pub mod Links
pub mod Mongo
pub mod Prelude
pub mod Repos
pub mod Runs
pub mod Strings
pub mod Symbols
pub mod Versions
pub mod Writes
