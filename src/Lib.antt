-- ===== src/Lib.antt =====
-- A library of definitions and theorems about Runethread (GitMemo), which keeps memories as pairs
-- of a Markdown file and a JSON sidecar in a Git repository.
--
-- The parts. `internal/memory` decodes a sidecar and checks it against the schema.
-- `internal/memoryservice` answers queries and applies mutations: a request is normalised and
-- validated; a key that is already in a commit is answered from that commit; otherwise the
-- repository must be clean, valid and at the expected revision, the operation runs in the worktree
-- of a transaction, the indexes are written, the result is validated, and one commit is published.
-- `internal/repository` gives the commands to Git, writes the record of an operation into the
-- commit message and finds it again. `internal/indexer` generates the indexes from the records,
-- with long lists in chunks, puts them in the place of the old ones, and answers lookups and
-- searches from them. `internal/validation` reports what is wrong with a repository;
-- `internal/trust` compares its control-plane files with the contract of the runtime, and
-- `internal/fsafety` resolves paths without following symbolic links.
--
-- The files, with the sources they follow:
--   Base                 texts, Go maps, results of fallible calls, 64-bit ints
--   Memory               internal/memory/model.go: types; Memory/Pattern its regular expressions,
--                        Memory/Fields `validateFields`, Memory/Decode `Decode` and `validateRequired`
--   Service/Paths        internal/memoryservice/mutation.go: `titleSlug`, `canonicalPaths`
--   Service/Store        mutation.go, service.go, repository_v8.go: `canonicalDocumentAt`,
--                        `loadDocument`, `writeProposedDocument`, `transitionLifecycle`
--   Service/Operation    mutation.go: `applyOperation` and its operations
--   Service/Request      mutation.go: `normalizeApplyRequest`, `validateApplyRequest`
--   Service/Apply        mutation.go: `ApplyMutation`, `Withdraw`, over the interface `Writer`
--   Service/Query        service.go: `Search`, `Get`, `PrepareMutation`, `legalOperations`
--   Repository/Message   internal/repository/transaction.go: the commit message and its parser
--   Repository/Git       transaction.go and git.go: `State`, `Commit`, `Publish`,
--                        `FindAppliedOperation`, over a shell that runs one Git command at a time and may change the world
--   Index/Chunks         internal/indexer/chunks.go: ID lists and postings in chunks
--   Index/Terms          machine.go and query.go: `tokenize`, `weightedTerms`, `uniqueTerms`, shards of IDs
--   Index/Machine        machine.go: `renderMachineIndexes`; Machine/Grouping, Frame and Found prove
--                        what its maps and files hold
--   Index/Human          indexer.go: projects.md, open-loops.md and preferences.md
--   Index/Generate       indexer.go: `Generate`, `Check`, `replaceIndexDirectory`
--   Index/Query          query.go: `LookupByID`, `idsForKey`, and under Query/Search `Search`
--   Validation           internal/validation/validation.go: Relations, Documents and Cycles are the checks,
--                        Validate is `Validate` and the reports
--   Safety               internal/fsafety/path.go
--   Trust                internal/trust/lock.go; Trust/Pinned `ReadPinnedVersion`
--   Tests                the theorems at concrete inputs
-- A Go name in camel case has the same words in snake case here, and a field keeps its name, but
-- for `Type`, which is `kind` in a memory and `relation` in a relationship.
--
-- How the state is modelled. A worktree is the list of its regular files with their bytes; it has
-- no directories and no symbolic links. A transaction, a commit and a publication are operations of
-- `Writer` on a repository of any type, as in the source. A text is the list of its bytes. White
-- space and lower case are those of ASCII, and the number of characters of a text counts the bytes
-- that begin one. A path is a clean one with slashes. A Go slice is a list, which stands for nil
-- and empty alike, but for the two `omitempty` slices of the indexes, which are optional. An int is
-- a number with its sign, and sums wrap at 64 bits.
--
-- Parameters: `encoding/json` (at each type a codec, or a parser into a JSON tree), `time.Parse`,
-- the failures of the operating system, SHA-256, and Git. What is assumed of them is named where it
-- is used: a codec reads back what it wrote, of the values that a statement names; `filepath.Clean`
-- leaves no empty part and no part `.`; a transaction leaves the branch where it is, a publication
-- that succeeds has moved it to the commit, and a published commit is found by its key. To the
-- mutation service the writing of all indexes, the search in them and the validation of a worktree
-- are operations of interfaces, and so are the other packages to `Validate`. A file system is what
-- `Lstat` and reading answer; what it refuses in the replacement of the index folder is a record of
-- tests, and the folder of the new index counts as removed in the end. Go's characters, their
-- classes and `unicode.ToLower` are parameters of the tokenizer.
--
-- Bounds: every loop is a recursion on a list or on a number of rounds that is the number of
-- chunks, but for the search for cycles, whose fuel is one more than the records are many: a path
-- of the search marks a node at each step, and each node is the ID of a record. Scores of a search
-- are added with wrap-around. Maps that Go ranges over in random order are ranged over in the order
-- of insertion; where that order could show, the source sorts afterwards. The chunked lists have at
-- most 2^63 - 1024 members, past which the sum in `chunkCount` wraps.
--
-- Not modelled: the command line, the upgrader, the starter, the digest of the schema file, the
-- walk of `ExistingPaths`, the JSON of the validation report and of the lock, `ReadRegularFile`,
-- `Status`, `OpenGit`, and the worktree commands of `BeginTransaction` and `Close`.
pub mod Base
pub mod Index
pub mod Repository
pub mod Memory
pub mod Validation
pub mod Safety
pub mod Trust
pub mod Service
pub mod Tests
