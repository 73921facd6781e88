-- ===== src/Lib.antt =====
-- Qri's dataset histories, collections, access control and references.
--
-- A qri node keeps, for every user, a tree of append-only operation logs (logbook/oplog): a user
-- log holds dataset logs, a dataset log holds branch logs, and a branch log records commits, pushes
-- and transform runs. Nodes exchange these trees and merge them. The logbook (logbook/logbook.go)
-- reads a branch log as a list of versions, which references (dsref) name and which remotes guard
-- with policies (remote/access). Every write to the logbook goes through `Book`, which looks the
-- log up, checks the access of the author, appends operations, stores the whole journal encrypted
-- and publishes an event. Transform scripts run apart from this: their events build up run states
-- (automation/run), of which the logbook records the result, and workflows (automation/workflow)
-- tie scripts to datasets. The collections (collection) cache one version of every dataset for each
-- profile and keep it up with the events of all other parts, which the bus (event) delivers. A
-- repository keeps references of its own, in memory (repo) or in a file (repo/fs).
--
-- Files and code
--   Prelude             shared types: texts are lists of bytes, `Outcome` is a value, an error or a
--                       panic, `Int` is a signed integer.
--   Dsref/Ref           dsref/ref.go: `Ref` and its methods.
--   Access              remote/access/access.go: `ParseResource`, `ParseAction`, the two `Contains`,
--                       `Rule.Validate`, `Policy.Enforce`. Access/Parse, Access/Matching and
--                       Access/Enforce hold the proofs about them.
--   Oplog/Op            logbook/oplog/log.go: `Op`, `Op.Equal`.
--   Oplog/Log           logbook/oplog/log.go: `Log` as a tree of entries, with `Append`, `Name`,
--                       `Author`, `Removed`, `Log`, `AddChild`, `Merge`. Oplog/Log/Holds says what a
--                       tree holds; Oplog/Log/Merge and Oplog/Log/Names are about merging and about
--                       the caches.
--   Oplog/Journal       logbook/oplog/log.go: `Journal` as the list of its top level logs, with
--                       `MergeLog`, `RemoveLog`, `HeadRef`, `GetAuthorID`, `Logs`, `Descendants`.
--                       Oplog/Journal/Merging is about `MergeLog`, Changing about a log that is
--                       changed in place, Authors about `GetAuthorID`.
--   Logbook/Models      logbook/logbook.go: the model numbers.
--   Logbook/History     logbook/logbook.go: `branchToVersionInfos`, `filteredBranchToVersionInfos`,
--                       `latestSavePath` and their helpers. History/Stack is the specification, a
--                       stack of versions; History/Refines, History/Latest and
--                       History/Deleted hold the proofs.
--   Logbook/Book        logbook/logbook.go: the state of `Book`, its errors, `save`, the lookups and the
--                       access checks; logbook/types.go: the typed logs.
--   Logbook/Book/Commits  the writes to a branch: `WriteVersionSave`, `WriteTransformRun`,
--                       `WriteVersionAmend`, `WriteVersionDelete`, `WriteRemotePush` and
--                       `WriteRemoteDelete` down to their save, and their rollback.
--                       Commits/Appending, Access, Saving, Listing, Counting and Denied hold the
--                       proofs.
--   Logbook/Book/Datasets  the writes to users and datasets: `initialize`, `WriteAuthorRename`,
--                       `WriteDatasetInit`, `WriteDatasetRename`, `WriteDatasetDeleteAll`, `MergeLog`,
--                       `RemoveLog`, `ConstructDatasetLog`; `RefToInitID`, `DatasetRef`, `BranchRef`.
--                       Datasets/Naming, Placed and Creating hold the proofs.
--   Logbook/Book/Reads  `Ref`, `ResolveRef`, `Items`, `AllReferencedDatasetPaths` and their helpers;
--                       Reads/Paths holds the proofs.
--   Logbook/Book/Entries  `LogEntries`, `PlainLogs` and their helpers.
--   Dsref/VersionInfo   dsref/version_info.go: `VersionInfo`, its conversions and the comparison of the
--                       aggregator, which VersionInfo/Order is about.
--   Dsref/Scan          dsref/parse.go: the regular expressions as scans.
--   Dsref/Parse         dsref/parse.go: the parsers and the checks of names. Parse/Scanning is about the
--                       scanners, Parse/Printing about parsing what `Ref.String` prints.
--   Dsref/Generate      dsref/generate.go: the state machine that makes a dataset name of a text, and
--                       `GenerateName`; Generate/Bounds and Generate/Names hold the proofs.
--   Params              base/params/list.go: the parameters of a list and their validation.
--   Params/OrderBy      base/params/orderby.go: `Order`, `OrderBy`, reading and printing them.
--   Run/State           automation/run/run.go: `State`, `StepState` and `AddTransformEvent`; the events
--                       of event/transform.go. Run/State/Steps is about sequences of events.
--   Run/Store           automation/run/store.go: `MemStore` and its `Create`, `Put`, `Get`, `Count`,
--                       `List`, `GetLatest`, `GetStatus`, `AddEvent`. Run/Store/Sound says when a store
--                       is sound; Creating, Adding and Listing hold the proofs.
--   Workflow            automation/workflow/workflow.go: `Workflow`, `Validate`, `ActiveTriggers` and
--                       `lessNilTime`; Workflow/Set: `Set`.
--   Workflow/Store      automation/workflow/store.go: `MemStore` with its mutex, `Put`, `Get`,
--                       `GetByInitID`, `Remove`. Workflow/Store/Putting and Workflow/Store/Locking hold
--                       the proofs.
--   Automation/RunQueue  automation/run_queue.go: the queue, and the cancel functions with their lock.
--                       RunQueue/Order and RunQueue/Blocking hold the proofs.
--   Automation/TriggerSet  automation/trigger/trigger.go: `Set` with `Add` and `Exists`;
--                       TriggerSet/Finding holds the proof.
--   Profile             profile/id.go: validating, encoding and decoding the ids of profiles.
--   Collection          collection/collection.go: `localSet` with `List`, `Get`, `Add`, `Delete` and saving.
--                       Collection/Ids, Viewing, Adding, Deleting and Listing hold the proofs.
--   Collection/Updates  `RenameUser` and `UpdateEverywhere`; Updates/Walking, Saving and Renaming say what
--                       they leave behind.
--   Collection/Maintainer  `SetMaintainer.handleEvent`. Maintainer/Effect says what an event means for a
--                       map of versions, Meaning compares the closures with it; Keeping and
--                       Refining are about one event, Publishing about the
--                       events of the logbook, Leaking about a commit that reaches two collections.
--   Collection/Loading  `loadAll`; Loading/Restoring says that it reads back what was saved.
--   Event               event/event.go: the bus, which publishes events to handlers. Event/Order holds the
--                       proofs about their order and number.
--   Refstore            repo/mem_refstore.go: `MemRefstore` with `PutRef`, `GetRef`, `DeleteRef` and
--                       `References`, over `DatasetRef.Match` of repo/ref/dataset_ref.go. Refstore/Finding
--                       and Refstore/Listing hold the proofs.
--   Refstore/Files      repo/fs/refstore.go: the store in a file with the same operations;
--                       Refstore/Files/Agreeing compares it with the store in memory.
-- The modules named Examples and Samples apply the theorems to concrete data.
--
-- How the code is read
--   A map is an association list (Prelude/Dict). A pointer to a run is the run itself, so that a caller
--   that keeps the pointer and writes through it is not modelled; a new id is an argument of `create`
--   and `put`. The mutex of the store of workflows is part of its state, since one return leaves it
--   locked; a call that then locks it blocks.
--   A pointer to a log is the log itself: the journal is a value, and a method that changes a log
--   found in the journal is a walk to its place with the change made there. The parent pointer, which
--   only these walks would have to keep, is left out. An index out of range is `panic`, which passes
--   through every caller. `Op.Hash` encodes an operation with flatbuffers and hashes the bytes with
--   BLAKE2b: it is the parameter `hash`, and theorems that rely on it assume that two operations with
--   one hash are equal for `Op.Equal`. `Op.Size` and the revision counts are natural numbers: no caller
--   writes a negative one. Timestamps are signed; a duration saturates at the bounds of 64 bits, as
--   `Time.Sub` does. The sum of an offset and a limit is taken not to wrap. The removal of diacritics
--   from a name is the parameter `normalize`, of which nothing is assumed.
--   An operation of `Book` returns its result and the book after it, so that what a failed call leaves
--   behind is part of the model. The encryption of the journal and `Put` of the file system are the
--   parameter `Storage`; the publisher is the list of what was published, since its errors are only
--   logged. The clock is an argument. A trigger is its id, and what makes triggers of options is a
--   parameter, which takes the id that it draws for options without one. A duration of a run is taken
--   not to be negative where it becomes the size of an operation. A collection set asks the outside for
--   peer ids, `sort.Sort`, JSON and files, which are the parameter `Host`; of the sort the theorems
--   assume that it only swaps entries, and that about `List` that it leaves no entry in front of a lesser one.
--   The map of collections is walked in the order of its list, which no theorem fixes; its mutex, which
--   every method holds to its end, is left out. A regular expression is a scan over bytes: each one in
--   dsref/parse.go has ASCII classes, and what it matches does not depend on the order in which
--   alternatives are tried.
--   Every function is structural recursion, but for printing a number, where the fuel is the number and
--   one: a number has no more digits than that.
--   The counts of a version are integers that do not wrap, and the limit of a list is taken to be one for
--   which `make` can allocate. A handler of the event bus is a function on the world `W` that it may
--   change; the lock is left out, so a handler that publishes or subscribes in turn acts on its world
--   only. The store of references in a file asks for reading, writing and the encoding through `Disk`;
--   of its sort the theorems assume that it permutes.
--
-- Not modelled
--   Encryption, signatures, flatbuffers and files of the journal; what the push operations do behind
--   their save, where the sparse log is made and parents and signatures of stored logs change;
--   `SummaryString`; the goroutines of the run queue and the orchestrator; listing runs by status and
--   listing workflows, which walk a map; the code that mostly calls libraries or the network
--   (api, cmd, lib, p2p, the rest of remote, registry, config, the rest of profile, auth, base,
--   the rest of repo, transform).
pub mod Prelude
pub mod Dsref
pub mod Params
pub mod Access
pub mod Oplog
pub mod Logbook
pub mod Run
pub mod Automation
pub mod Workflow
pub mod Collection
pub mod Profile
pub mod Event
pub mod Refstore
