-- ===== src/Ingress.antt =====
-- cmd/ingress-verify/main.go: the ingress gate, from its flags to its exit code. A note keeps its
-- name and whether it passed; what is printed, and the texts of errors, are left out.
mod Tests
pub mod Uint
pub mod Vetted
pub mod Exit
pub mod Versions
use arazu.Prelude.{
  ℕ, suc, String, ◌==◌, Bool, true, false, not, ◌||◌, ltb, leb, nat_eq, if◌then◌else◌, List, [],
  ◌∷◌, ◌++◌, Option, none, some, Result, ok, err, Checks, map_err, guard, some_or, Text, codes,
  slash, newline, lookup, insert, trim_space,
}
use arazu.AuditLog.{File, missing, unreadable, present}
use arazu.ContentStore
use arazu.ContentStore.{FileEntry, Tree, StoreError, verify_against, content_root}
use arazu.Manifest.{Manifest, Json, ParseError, unencodable, parse}
use arazu.Manifest.Signatures.{
  Scheme, KeysError, SignatureError, Keys, malformed_line, untrusted_signer, undecodable_signature,
  not_verified, duplicate_signer, long_line, insufficient_signatures, load_public_keys,
  verify_signatures,
}
use arazu.Ingress.Uint.{parse_uint, format_uint}

abbrev pub required_signers : ℕ
required_signers = 2

-- check
pub record Note : Type 0 where
  pub name : String
  pub passed : Bool

-- decision
pub record Decision : Type 0 where
  pub decision : String
  pub reason : String
  pub bundle_id : String
  pub version : ℕ
  pub content_root : String
  pub signers : List Text
  pub checks : List Note

abbrev pub blank_decision : Decision
blank_decision = record {
  decision = "";
  reason = "";
  bundle_id = "";
  version = 0;
  content_root = "";
  signers = [];
  checks = [];
}

-- The libraries; `sum` is SHA-256 with its hexadecimal form.
pub record Env : Type 0 where
  pub json : Json
  pub scheme : Scheme
  pub sum : Text → String

-- What os.WriteFile leaves of the version file.
pub data Write : Type 0 where
  written : Write
  not_written : String → Write
  cut_short : Text → String → Write

-- What becomes of an event that is to be logged.
pub data Logging : Type 0 where
  logged : Logging
  no_directory : Logging
  unavailable : Logging

-- What one run of the command finds.
pub record Run : Type 0 where
  pub has_flags : Bool
  pub allow : List Text
  pub manifest_file : Result String Text
  pub trusted_file : Result String Text
  pub sig_file : File
  pub tree : Tree
  pub state_error : Option String
  pub make_state : Checks String
  pub write : Write
  pub logging : Logging

pub data Event : Type 0 where
  ingress_accept : String → ℕ → String → List Text → Event
  ingress_reject : String → ℕ → String → Event

-- The version files of the state directory, by name, and the events in the log.
pub record World : Type 0 where
  pub versions : List (Text × Text)
  pub events : List Event

pub data Refusal : Type 0 where
  manifest_absent : String → Refusal
  manifest_refused : ParseError → Refusal
  keys_refused : KeysError → Refusal
  sig_file_unreadable : String → Refusal
  signatures_refused : SignatureError → Refusal
  state_unreadable : String → Refusal
  state_malformed : Refusal
  rollback : ℕ → ℕ → Refusal
  content_refused : StoreError → Refusal

reason_of_parse : ParseError → String
reason_of_parse (unencodable m) = "unverifiable"
reason_of_parse _ = "manifest-parse"

reason_of_signatures : SignatureError → String
reason_of_signatures (malformed_line n) = "bad-signature"
reason_of_signatures (untrusted_signer id) = "untrusted-signer"
reason_of_signatures (undecodable_signature n m) = "bad-signature"
reason_of_signatures (not_verified id) = "bad-signature"
reason_of_signatures (duplicate_signer id) = "duplicate-signer"
reason_of_signatures long_line = "unverifiable"
reason_of_signatures (insufficient_signatures n k) = "insufficient-signatures"

reason_of_content : StoreError → String
reason_of_content (ContentStore.hash_mismatch p) = "hash-mismatch"
reason_of_content (ContentStore.unmanifested_file p) = "unmanifested-file"
reason_of_content (ContentStore.missing_file p) = "missing-file"
reason_of_content (ContentStore.allowlist_violation p) = "allowlist-violation"
reason_of_content (ContentStore.unsafe_path p) = "unsafe-path"
reason_of_content (ContentStore.unreadable m) = "unverifiable"

-- reasonOf
pub reason_of : Refusal → String
unfolding reason_of_parse reason_of_signatures reason_of_content
reason_of (manifest_absent m) = "manifest-parse"
reason_of (manifest_refused e) = reason_of_parse e
reason_of (keys_refused e) = "unverifiable"
reason_of (sig_file_unreadable m) = "bad-signature"
reason_of (signatures_refused e) = reason_of_signatures e
reason_of (state_unreadable m) = "unverifiable"
reason_of state_malformed = "version-rollback"
reason_of (rollback v last) = "version-rollback"
reason_of (content_refused e) = reason_of_content e

-- A check of `verify`, which may fail and keeps notes in the decision.
abbrev pub Checking : Type 0 → Type 0
Checking A = Decision → Result Refusal A × Decision

module _ {A B : Type 0} where
  pub go_on : Result Refusal A → (A → Checking B) → Checking B
  go_on (ok a) f d = f a d
  go_on (err e) f d = (err e, d)

  infixl 10 ◌>>=◌ ◌>>◌
  pub ◌>>=◌ : Checking A → (A → Checking B) → Checking B
  ◌>>=◌ m f d = let (r, d') = m d in go_on r f d'

  abbrev pub ◌>>◌ : Checking A → Checking B → Checking B
  m >> f = m >>= λ _. f

succeeded : {A : Type 0} → Result Refusal A → Bool
succeeded (ok a) = true
succeeded (err e) = false

-- The result of a call, with its note.
pub noted : {A : Type 0} → String → Result Refusal A → Checking A
noted name r d =
    (r, record d { checks = d.checks ++ record { name = name; passed = succeeded r } ∷ [] })

pub set : (Decision → Decision) → Checking (Unit {0})
set f d = (ok tt, f d)

-- strings.ReplaceAll(bundleID, "/", "_")
underscored : Text → Text
underscored [] = []
underscored (c ∷ t) = (if nat_eq c slash then b'_' else c) ∷ underscored t

-- gate.versionFile, in the state directory.
pub version_file : String → Text
version_file bundle_id = codes "last-accepted-" ++ underscored (codes bundle_id)

pub stored_version : Option Text → Result Refusal ℕ
stored_version none = ok 0
stored_version (some t) = some_or state_malformed (parse_uint (trim_space t))

pub or_state_error : Option String → Result Refusal ℕ → Result Refusal ℕ
or_state_error none r = r
or_state_error (some m) r = err (state_unreadable m)

-- gate.lastAccepted
pub last_accepted : Option String → List (Text × Text) → String → Result Refusal ℕ
last_accepted state_error versions bundle_id =
    or_state_error state_error (stored_version (lookup (version_file bundle_id) versions))

-- A missing signature file is read as an empty one.
pub signature_text : File → Result Refusal Text
signature_text missing = ok []
signature_text (unreadable m) = err (sig_file_unreadable m)
signature_text (present t) = ok t

-- m.Version <= last is refused.
pub newer : ℕ → Result Refusal ℕ → Result Refusal (Unit {0})
newer v (ok last) = guard (ltb last v) (rollback v last)
newer v (err e) = err e

pub allow_or_default : List Text → List Text
allow_or_default [] = codes "content/" ∷ []
allow_or_default (a ∷ more) = a ∷ more

module _ (env : Env) where
  pub signed_by : Text → Keys → Result Refusal Text → Result Refusal (List Text)
  signed_by canonical trusted (ok t) =
      map_err signatures_refused (verify_signatures env.scheme canonical trusted t required_signers)
  signed_by canonical trusted (err e) = err e

  -- The checks of gate.verify on the version and the content.
  pub check_content : Run → List (Text × Text) → Manifest → Checking (Manifest × String)
  check_content run versions m = do
    noted "version-rollback" (newer m.version (last_accepted run.state_error versions m.bundle_id))
    noted "content"
        (map_err content_refused (verify_against run.tree m.files (allow_or_default run.allow)))
    root ← noted "content-root" (ok (content_root env.sum m.files))
    λ d. (ok (m, root), d)

  -- The checks of gate.verify on the signatures, and what comes after them.
  pub check_signatures : Run → List (Text × Text) → Text → Manifest → Checking (Manifest × String)
  check_signatures run versions canonical m = do
    trusted ←
        noted "trusted-keys" (map_err keys_refused (load_public_keys env.scheme run.trusted_file))
    signers ← noted "signatures" (signed_by canonical trusted (signature_text run.sig_file))
    set (λ d. record d { signers = signers })
    check_content run versions m

  -- gate.verify
  pub verify : Run → List (Text × Text) → Checking (Manifest × String)
  verify run versions = do
    canonical ← noted "manifest-present" (map_err manifest_absent run.manifest_file)
    m ← noted "manifest-canonical" (map_err manifest_refused (parse env.json canonical))
    set (λ d. record d { bundle_id = m.bundle_id; version = m.version })
    check_signatures run versions canonical m

-- What the command ends with.
pub record Outcome : Type 0 where
  pub code : ℕ
  pub decision : Decision
  pub world : World

-- gate.emit
pub emit : String → String → ℕ → Decision → World → Outcome
emit dec reason code d w = record {
  code = code;
  decision = record d { decision = dec; reason = if reason == "" then d.reason else reason };
  world = w;
}

-- gate.appendLog, and what comes after it. Without the log's directory the event is dropped.
pub append_log : Logging → Event → Decision → World → (World → Outcome) → Outcome
append_log logged e d w k = k (record w { events = w.events ++ e ∷ [] })
append_log no_directory e d w k = k w
append_log unavailable e d w k = emit "ERROR" "audit-log-unavailable" 2 d w

-- gate.reject
pub reject : Run → Refusal → Decision → World → Outcome
reject run e d w =
    append_log run.logging (ingress_reject d.bundle_id d.version (reason_of e)) d w
      (λ w'. emit "REJECT" (reason_of e) 1 (record d { reason = reason_of e }) w')

pub with_version : Manifest → Text → World → World
with_version m t w = record w { versions = insert (version_file m.bundle_id) t w.versions }

-- The digits of the version, on a line.
pub version_text : Manifest → Text
version_text m = format_uint m.version ++ newline ∷ []

pub after_write : Run → Manifest → String → Write → Decision → World → Outcome
after_write run m root written d w =
    append_log run.logging (ingress_accept m.bundle_id m.version root d.signers)
      (record d { content_root = root }) (with_version m (version_text m) w)
      (λ w'. emit "ACCEPT" "" 0 (record d { content_root = root }) w')
after_write run m root (not_written e) d w = emit "ERROR" e 2 d w
after_write run m root (cut_short t e) d w = emit "ERROR" e 2 d (with_version m t w)

pub after_state : Run → Manifest → String → Checks String → Decision → World → Outcome
after_state run m root (err e) d w = emit "ERROR" e 2 d w
after_state run m root (ok _) d w = after_write run m root run.write d w

-- gate.accept
pub accept : Run → Manifest → String → Decision → World → Outcome
accept run m root d w = after_state run m root run.make_state d w

pub decide : Run → World → Result Refusal (Manifest × String) × Decision → Outcome
decide run w (err e, d) = reject run e d w
decide run w (ok (m, root), d) = accept run m root d w

-- main
pub command : Env → Run → World → Outcome
command env run w =
    let outcome = decide run w (verify env run w.versions blank_decision) in
    if run.has_flags then outcome else emit "ERROR" "usage" 2 blank_decision w
