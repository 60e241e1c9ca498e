-- ===== src/Lib.antt =====
-- packslip: the checks that stand between a signed release and a changed installation.
--
-- An installation goes through the parts of the program that are modelled here. Discovery merges
-- what a forge offers with a signed list and names the releases to try. The signed document of one
-- is validated, and the artifact for the host is selected from it. The trust checks decide whether
-- the release is of the project that was asked for, and whether it keeps what an earlier one
-- vouched for. The host is checked against what the artifact requires. The archive checks decide
-- which entries of an artifact may be written, and where. The transaction then puts the unpacked
-- tree, the commands and the records in place, all or nothing.
--
-- Document is src/model.rs: the records of a document, Document.Names its names and formats,
-- Document.Invalid the errors and the checks that every document has, Document.Artifacts,
-- Document.Resources and Document.Validate `Statement::validate`, Document.ReleaseLists
-- `ReleaseListStatement::validate`, Document.Select `select_artifact`, and Document.Versions
-- `normalize_version` and `tag_version`. A loop that fills a set reads the elements before instead,
-- whose names the set holds. semver and jiff are parameters that read a text or do not.
--
-- Discovery is src/discovery.rs from the releases of a forge on: Discovery.Freshness has
-- `list_freshness`, Discovery.Requests `numeric_request` and `matches_request`, Discovery.Merge the
-- tables that `candidates_with_latest` fills, Discovery.Recommendation what it says of a
-- recommendation, and Discovery.Candidates the rest of it. A `BTreeMap` is the list of its entries
-- in the order of their keys (Discovery.Tables). The precedence and the ranges of semver are
-- parameters, any functions.
--
-- Host is src/install_host.rs after a host has been observed: `compare`, `Snapshot::check` and
-- `require_compatible`. Archive is src/archive.rs on the names that a reader lists. A message is a
-- constructor with the values that it shows.
--
-- Forge is src/forge.rs, with the project names of src/model.rs (Forge.Lists, Forge.Grammar).
-- Forge.Names has `ForgeName` and `same_project`, Forge.Urls the identities and URLs, Forge.Pins
-- `ForgePin` and `same_workflow`, Forge.Check `check`, `check_source`, `policy` and
-- `continues_signer`. A `str` is the list of its UTF-8 bytes. Errors keep the values that their
-- messages show.
--
-- Policy is src/install_policy.rs: `retains_provenance`, `changes` and `continuity`, with
-- `Policy::for_project` of src/sigstore.rs. It compares repositories and signers by the functions
-- of Forge; Policy.Signer, Policy.Prior and Policy.Changes describe when a signer continues, when
-- the earlier record is of the project, and what a change must keep. The digest that an approval
-- must name is a parameter, since SHA-256 and JSON are libraries'.
--
-- Policy.Constraints is `admin_constraints` and `check_constraints` of the same file, and
-- Fingerprint is src/fingerprint.rs with `of_signer`, `verify` and the reading of a fingerprint;
-- SHA-256 is a parameter there.
--
-- Extract is src/install_extract.rs. Extract.Names has `path` and `link_path`, Extract.Entries the
-- listing with `prefix`, `mapped` and `validate`, Extract.Resolve `resolved_link` on Unix. A
-- `PathBuf` is the list of its components. Unicode lower case is a parameter, any function on a
-- component; the file system below the extraction root is a parameter of `resolved_link`. Its walk
-- recurses on the expansions left, 128 at first as in the source, and on the components pending, so
-- it needs no fuel. Byte counts are natural numbers with the overflow of `u64` written out.
--
-- Transaction is src/install_fs.rs: `validate`, `recover` and the end of `commit_inner`, from the
-- first journal to the result, and the recovery of a session's own journal in `open_under`.
-- Transaction.State has the disk, which is what stands at each path, the journal file and the
-- recovery pointers, and the calls that change it. A list of faults says what becomes of each call
-- in turn: it works, it fails before its effect, it fails after it, or the process stops there and
-- the calls after it fail too. A call that removes or moves a tree is one step, and `rename` fails
-- where its source is missing, its target is a directory or a directory would replace something
-- (the system would let one replace an empty one); reads do not fail; nobody else writes below the
-- locked scopes. A pointer is whether it names this journal. Transaction.Journal has `validate` and
-- `recover`, Transaction.Run the publication, and the other modules carry the invariant through
-- each of them: Stages says how far an operation is, Moves, Publish and Rollback move it on and
-- back, Cleanup and Decision say what is left after the commit point, Recovery, Atomic and History
-- put these together. Transaction.Exports is `export_name`.
--
-- Not modelled: the readers of archive formats and the bytes that they write, locks and directory
-- permissions, the observation of the host, the preparation of slots before the first journal,
-- signature and certificate verification, network access and its caches, the texts of reports, the
-- command line, the creation of releases, and the implementations in other languages. They are I/O,
-- calls of libraries, or not done yet.
pub mod Base
pub mod Extract
pub mod Transaction
pub mod Forge
pub mod Fingerprint
pub mod Policy
pub mod Archive
pub mod Discovery
pub mod Document
pub mod Host
