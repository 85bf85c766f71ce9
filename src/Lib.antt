-- ===== src/Lib.antt =====
-- ai-k8s: a worker that triages Security Command Center findings against a corpus of recorded
-- decisions. This library models the program, without its flags, its transport and its client libraries.
--
-- A delivery goes through the parts in this order. `Handle` (internal/worker) parses the body
-- (internal/scc) and reads from the ledger (internal/ledger) how far the finding got. `Decide` rules
-- on it by the corpus (internal/corpus, internal/verdict), and where the rules leave it unmatched asks
-- a model (internal/model), whose cost is reserved in the ledger's bucket first. The record is written
-- to the ledger, the owner is notified (internal/notify), and only then is the message acknowledged.
--
-- Files and what they model:
--   Prelude, Text     numbers, results, and what is used of strings, strconv and fmt; Go strings
--                     are sequences of code points
--   Scc               internal/scc/finding.go: Parse, Key, pathSafe; the loops of pathSafe run on the
--                     size of their text as fuel, and each round shortens it
--   Corpus            internal/corpus: id.go, index.go and resolve.go; a Go map is an
--                     association list. Corpus/Load has the loaders (checkov.go, markdown.go,
--                     yaml.go) and Compile, Unmarshal and Report (compile.go)
--   Verdict           internal/verdict: Record, Validate, ResolveCitations, Classify, Insufficient
--   Platform          what comes from outside: encoding/json, crypto/sha256 and float64, as the
--                     fields of a record; IsLawful says that decoding undoes encoding
--   Ledger            internal/ledger/ledger.go over the store of cmd/triage-eval/main.go, to which a
--                     script adds the faults of a remote bucket: a call may be lost, or be done and
--                     still report an error
--   Model             internal/model: the prompt, the daily spend, Settle with its checks of a reply;
--                     the endpoint and the clock are functions of the number of the call
--   Notify            internal/notify/entry.go
--   Cloud             internal/gcp: the request and the reply of Vertex.Generate, the errors of the
--                     bucket, the entry of a verdict; the client libraries are parameters
--   Health            internal/health: the probes, over a clock that counts nanoseconds
--   Worker            internal/worker: Decide, then Handle as runs over a world of bucket, memory,
--                     notifier and trace, with the crash drills, restarts and redeliveries;
--                     Worker/Startup is `run` of cmd/triage-worker/main.go up to the pull
--   Eval              internal/eval: the sets of cases (Cases, Derive), Judge, the totals, the mode
--                     and the percentile (Judge, Totals, Mode), the check of a committed result (Results);
--                     and decideAll of cmd/triage-eval/main.go (Trial)
--   Examples          a platform, a corpus and findings on which the theorems are applied
--
-- State is passed explicitly. A step that may fail or end the process is a `Run` of Worker/Flow, and
-- `Ends` states what holds after it on each of its three ends. The trace records, newest first, what
-- was emitted, acknowledged, refused, and where a process stopped.
--
-- Bounds and fuel: token counts, limits and counters are natural numbers, since none of them is ever
-- negative or comes near 2^63; strconv.Atoi keeps its range of 64 bits. The loops of pathSafe and of
-- printing a number run on fuel, of which the size of the text and the number are enough. A store lists
-- its objects newest first, where Go's map has no order. The random part of a reservation's name is
-- read from the clock's record, and may be missing.
--
-- A loader reads a file as the lines that bufio.Scanner gives, with its limits of 65536 and 1048576
-- bytes. Go's loop over a map takes any order: where it matters the map comes as a list in that order.
-- percentile takes its share in hundredths, and Modal returns the two numbers of its quotient.
-- Ledger/Contract is the abstract store, a map that is written once for each name, against which the
-- store with faults is compared.
--
-- Not modelled: log lines and contexts; locks, since each locked region is one step and a worker
-- handles one message at a time; the decoders and encoders of JSON and YAML, the transport and the
-- cloud client libraries; the flags of the commands, the periodic report of the counters, the probes'
-- server, the file that corpusc writes, and the printed table of the evaluation.
-- A delivery never races another worker on the same finding.
pub mod Prelude
pub mod Text
pub mod Scc
pub mod Corpus
pub mod Verdict
pub mod Platform
pub mod Ledger
pub mod Model
pub mod Notify
pub mod Worker
pub mod Eval
pub mod Cloud
pub mod Health
pub mod Examples
