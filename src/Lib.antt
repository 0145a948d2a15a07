-- ===== src/Lib.antt =====
-- pkgward watches package registries, scans new versions statically, detonates some of them in a sandbox
-- and turns findings into a verdict. This library models the parts of its Python package that decide:
-- what is scanned and in which order, how findings become a score and a verdict, and how detonation
-- jobs are claimed, retried and finished. Each file's first comment names the code it is about.
--
-- - Intel, Adapter: the intel pack and the merge of overlays (pkgward/intel/pack.py), the Finding record
--   (pkgward/adapter.py). A Python dict is an association list in insertion order (Prelude.Maps).
-- - Detect: scoring and verdicts (pkgward/detect/score.py: score_and_verdict and its helpers) and the
--   gate that picks packages for detonation (pkgward/detonate/gate.py: should_detonate). A loop over a
--   dict is a fold over the association list; the pack is an argument.
-- - Queue: the table ScanQueue with enqueue, mark_done, mark_failed, prune_terminal and
--   sweep_stale_claims (pkgward/queue.py, columns from pkgward/store/models.py). A function takes the rows
--   and returns the new ones. Queue.Schedule has the shares of the ecosystems (_eco_weights,
--   _weighted_order), Queue.Claim has claim_next: between two statements of a claim any other session may
--   commit anything, which the argument `others` stands for.
-- - Jobs: the table DetonationQueue (pkgward/detonation_queue.py) in the same style, with the expiry of
--   the clean backlog; Jobs.Worker has the worker's transactions (pkgward/detonation_worker.py:
--   _mark_failed, _requeue_or_fail, _finalize_detonation), which call Detect to score a scan again.
--   Jobs.Steps composes them in any order.
-- - Npm: how far the cursor of the npm feed moves after a poll (end of poll_changes_once in
--   pkgward/ecosystems/npm/ingest/cursor.py), and Npm.Carryover: which anomaly candidates a poll checks
--   (_check_anomalies there), and Npm.Gate: the gate of a page (_gate_page, gate_decision of
--   pkgward/focus.py).
-- - Reuse: findings carried from an earlier scan (pkgward/finding_reuse.py).
-- - Watchlist: names that confirmed verdicts add to the watchlist (pkgward/watchlist_auto.py).
--   Watchlist.Cap has the bound of prune_over_cap.
-- - Triage: the adjudication by a language model (pkgward/llm/triage.py): the budget, the check of the
--   indicators it names, and what it cannot soften; Triage.Attempts has the attempts of one triage,
--   Triage.Shared the budget under all threads.
-- - Pipeline: the end of a scan (pkgward/pipeline.py, _persist_and_finalize): Pipeline.Scan has the first
--   transaction, Pipeline.Stages the steps after the model's answer.
-- - Extract: path checks and extraction loops (pkgward/util/extract.py).
-- - Scope, Maintainers: watched organisations (pkgward/scope_watchlist.py) and watched maintainers
--   (pkgward/maintainer_watch.py).
-- - Focus: the operator's focus packages (pkgward/focus.py); Focus.Parse has the parsing of focus files.
-- - Pivot: the sweep over the packages of a caught maintainer (pkgward/maintainer_pivot.py), which enqueues
--   scans with Queue.enqueue and watches with Maintainers.add_watch.
-- - Anomaly, Diff: suspicious updates (pkgward/ecosystems/version_anomaly.py,
--   pkgward/ecosystems/npm/ingest/anomaly.py) and what changed since the previous version
--   (pkgward/analyze/version_diff.py).
-- - Prelude: tests, lists, dicts and texts over the native numbers, and tables that are cut down to a
--   bound (Prelude.Evict, Prelude.Delete), which Jobs, Watchlist and Maintainers share.
-- - Examples: tests on concrete inputs, and the theorems at inputs that meet their hypotheses.
--
-- How they interact: ingest (Npm) calls Queue.enqueue; scan workers claim rows (Queue.Claim), may
-- carry findings (Reuse) and end a scan with Pipeline: it scores the findings (Detect), enqueues a
-- job (Jobs), asks the model (Triage), alerts, promotes the name and its organisation (Watchlist,
-- Scope) and finishes the row with Queue.mark_done. Detonation workers claim jobs, score the scan
-- again with the dynamic findings, and raise an alert on a flip.
--
-- Conventions. Times are seconds and `t < now - d` is written `t + d < now`. Error texts are lists
-- of code points. Confidences are in hundredths or no number at all, and money is in a unit that
-- makes a rate per token whole. A publication time is a natural that orders like its ISO text. Scope
-- and focus names change case and lose white space as ASCII does. Numbers are unbounded as in
-- Python; where Python's difference may be negative the model says so beside the definition. The
-- loops are bounded by the code itself (the retries of an INSERT, the rounds of a claim, the
-- MAX_RETRIES + 1 attempts of a triage) or run along a list, so no fuel is added.
--
-- Parameters stand for code that is not in the repository: `random.choices` (pick), `random.shuffle`
-- (shuffle), the lower case of a name (lower), the database's answer to an INSERT (answer), the
-- commits of other sessions (others, between, inserted), the model (ask), the times and the other
-- threads around a triage (Process), and the file system with the reader of an archive (System).
-- What an HTTP call or a parser gives is a field or an argument: the metadata of a package's
-- versions, the packages of a maintainer, whether a hook runs a bundled path, whether the text
-- search of the worker's exemption for verified downloads hits (self_download).
--
-- Not modelled: what is regular expressions, I/O or calls of services: the prompt and the source
-- text of a triage, the reading of archive formats, the analyzers, HTTP clients, notifications, the
-- vault, the command line, and the sandbox service (detonation/, in Go). Also left out are nested
-- archives (pkgward/analyze/unpack.py). In Pipeline the maintainer pivot is one event.
pub mod Prelude
pub mod Adapter
pub mod Intel
pub mod Jobs
pub mod Npm
pub mod Detect
pub mod Queue
pub mod Reuse
pub mod Watchlist
pub mod Triage
pub mod Pipeline
pub mod Extract
pub mod Scope
pub mod Maintainers
pub mod Anomaly
pub mod Diff
pub mod Pivot
pub mod Focus
pub mod Examples
