-- ===== src/Lib.antt =====
-- Arazu: a gate that decides whether a candidate patch has earned credit for fixing a
-- vulnerability. A case of the corpus names a vulnerability and its candidates; the stages M0 to M3
-- each look at one candidate; the gate runs them in order and writes a decision, which carries what
-- each stage saw.
--
-- The files and the code they model:
--   Prelude            names and lemmas that the other modules share
--   Corpus/Case        pkg/corpus/case.go: the case, its candidates and its paths
--   Corpus/Validity    pkg/corpus/case.go: Validate
--   Corpus/Paths       the functions of path/filepath that the case uses
--   Corpus/Reasons     pkg/corpus/case.go, stages.go: the vocabulary of reasons
--   Corpus/Site        pkg/corpus/crashsite.go: the site of a crash against the declared one
--   Gate/Decision      pkg/gate/decision.go: the decision, and Validate
--   Gate/Verify        pkg/gate/gate.go: Verify
--   Gate/Effect        pkg/gate/effect.go: M0
--   Gate/Exec          actions that change a world and may fail
--   Revert             pkg/revert/revert.go: M1
--   ClassReplay        pkg/classreplay/classreplay.go: M2
--   Sanitizer          pkg/sanitizer/sanitizer.go: M3
--   AuditLog           pkg/auditlog/auditlog.go: the hash-chained log in which verdicts are recorded
--   LogVerify          cmd/log-verify: the command that checks a log
--   Eval               pkg/eval/eval.go: the score of the gate against the answer key
--   Command            cmd/gate: the command that runs a stage and exits with the verdict's code
--   ContentStore       pkg/contentstore/contentstore.go: a bundle against its manifest
--   Manifest           pkg/manifest/manifest.go: the manifest, its canonical form and its parser
--   Manifest/Signatures  pkg/manifest/sign.go: trusted keys and signatures
--   Signer             pkg/signer: signatures by software and security keys, counted by person
--   Fido               pkg/fido/fido.go: assertions of security keys
--   Fido/Store         pkg/fido/signers.go: provisioned credentials and their counters
--   Dossier            pkg/dossier/verify.go: a dossier against its own claims
--   CrsOut             pkg/crsout/crsout.go: the capture of a run's output as a case
--   Ingress            cmd/ingress-verify/main.go: the gate that a bundle of inputs passes
--
-- A stage acts on a world, which is any type: what it does to trees, containers and files is a
-- function from the world to a result and the world that it leaves, and the interface Target of a
-- stage is a record of such functions. An error is a value, and what was done before it stays done.
-- Where the source branches on a value, the branches are the clauses of a function of that value.
--
-- The log is its file's text; the encoding of an entry and the digest of its bytes are a parameter, and
-- what is relied on of the encoding is a hypothesis about the one entry that is written. Sequence
-- numbers wrap around at 2 ^ 64. A directory is the list of what the walk finds in it.
--
-- A bundle of inputs passes the ingress gate: Ingress composes Manifest, Manifest/Signatures and
-- ContentStore the way the command does, and keeps the version files and the events of the log as its
-- state. A version is a uint64, which is a hypothesis on the decoder of manifests. Signature schemes,
-- digests, base64, JSON and regular expressions are parameters of what uses them; ssh-keygen is one of
-- the signers. A map of the source is an association list. The loops that gather what a file's lines
-- or a list of assertions say are one function, gather, with a turn of the loop as its argument.
--
-- Every loop of the modelled code runs over a list, and is structural recursion on it. The one fuel is
-- that of printing a number n in decimals, which is n + 1 and so exceeds the number of its digits.
-- Lengths and counts are natural numbers; an int of the source that can be negative is an ℤ, and the
-- lists are far too short for an int of 64 bits to wrap around.
--
-- Text is a list of code points, or of bytes where the source takes bytes apart. Messages are modelled
-- where they become evidence of a decision, and so is the formatting of numbers in them; the wording of
-- errors is not, they are constructors.
--
-- Not modelled: cancellation by a context, and what git, docker, the file system and a TPM do; the
-- containers that M1 and M2 run in (pkg/revert/challenge.go, pkg/classreplay/ossfuzz.go), the seal, the
-- control of egress, contained runs, the driver, and the commands that only read flags and print.
pub mod Prelude
pub mod Corpus
pub mod Gate
pub mod Revert
pub mod Sanitizer
pub mod ClassReplay
pub mod AuditLog
pub mod Eval
pub mod ContentStore
pub mod Manifest
pub mod Signer
pub mod Fido
pub mod Ingress
pub mod Command
pub mod Dossier
pub mod CrsOut
pub mod LogVerify
