-- ===== src/ContentStore.antt =====
-- pkg/contentstore/contentstore.go: an unpacked bundle against its manifest. The directory is the
-- list of what is in it, in the order of the walk; the digest of a file's bytes is given with it.
pub mod Safe
pub mod Accepts
pub mod Root
pub mod Tests
use Prim.Native.Nat.{Ordering}
use Prim.Native.String.{compare as compare_text}
use arazu.Prelude.{
  Checks, and_then, each, ℕ, String, ◌==◌, Bool, true, false, ◌||◌, List, [], ◌∷◌, ◌++◌, Option,
  none, some, Result, ok, err, Text, codes, slash, split, text_eq, has_prefix, if◌then◌else◌, ℤ,
  pos, negsuc, nat_eq, suc, newline, decimal,
}
use arazu.Corpus.Paths.{is_abs, clean, dot_dot}

-- manifest.File
pub record FileEntry : Type 0 where
  pub path : String
  pub sha256 : String
  pub size : ℤ

pub data Node : Type 0 where
  directory : Node
  regular : String → ℕ → Node
  locked : String → Node
  special : Node

abbrev pub Tree : Type 0
Tree = List (String × Node)

pub data StoreError : Type 0 where
  hash_mismatch unmanifested_file missing_file allowlist_violation unsafe_path : String → StoreError
  unreadable : String → StoreError

abbrev pub Checked : Type 0
Checked = Checks StoreError

pub traverses : List Text → Bool
traverses [] = false
traverses (seg ∷ segs) = text_eq seg dot_dot || traverses segs

pub allowed : Text → List Text → Bool
allowed p [] = false
allowed p (prefix ∷ rest) = has_prefix p prefix || allowed p rest

-- checkPath
unfoldable pub check_path : List Text → String → Checked
unfolding traverses allowed clean is_abs split text_eq has_prefix
check_path allow p =
    if p == ""
    then err (unsafe_path p)
    else if is_abs (codes p)
    then err (unsafe_path p)
    else if text_eq (clean (codes p)) (codes p)
    then (if traverses (split slash (codes p))
        then err (unsafe_path p)
        else if allowed (codes p) allow
        then ok tt
        else err (allowlist_violation p))
    else err (unsafe_path p)

found : FileEntry → Result StoreError (List FileEntry) → Result StoreError (List FileEntry)
found f (ok fs) = ok (f ∷ fs)
found f (err e) = err e

-- The walk of ScanDir. The first entry that is refused ends it.
pub walk : Tree → Result StoreError (List FileEntry)
walk [] = ok []
walk ((p, directory) ∷ rest) = walk rest
walk ((p, regular sum size) ∷ rest) =
    found (record { path = p; sha256 = sum; size = pos size }) (walk rest)
walk ((p, locked m) ∷ rest) = err (unreadable m)
walk ((p, special) ∷ rest) = err (unsafe_path p)

unfoldable pub before : String → String → Bool
before s t = elim (compare_text s t) [ Ordering.lt ↦ true | _ ↦ false ]

unfoldable pub insert_file : FileEntry → List FileEntry → List FileEntry
insert_file f [] = f ∷ []
insert_file f (g ∷ gs) =
    let rest = insert_file f gs in if before g.path f.path then g ∷ rest else f ∷ g ∷ gs

unfoldable pub sort_files : List FileEntry → List FileEntry
sort_files [] = []
sort_files (f ∷ fs) = insert_file f (sort_files fs)

sorted : Result StoreError (List FileEntry) → Result StoreError (List FileEntry)
sorted (ok fs) = ok (sort_files fs)
sorted (err e) = err e

-- ScanDir
pub scan_dir : Tree → Result StoreError (List FileEntry)
scan_dir tree = sorted (walk tree)

pub node_at : String → Tree → Option Node
node_at p [] = none
node_at p ((q, n) ∷ rest) = if q == p then some n else node_at p rest

-- Lstat, and the test of the mode.
exists_as : String → Option Node → Checked
exists_as p none = err (missing_file p)
exists_as p (some (regular sum size)) = ok tt
exists_as p (some (locked m)) = ok tt
exists_as p (some directory) = err (unsafe_path p)
exists_as p (some special) = err (unsafe_path p)

size_is : ℕ → ℤ → Bool
size_is n (pos k) = nat_eq n k
size_is n (negsuc k) = false

-- The digest and the size of what is read at the path.
hashes_to : FileEntry → Option Node → Checked
hashes_to f (some (regular sum size)) =
    if sum == f.sha256
    then (if size_is size f.size then ok tt else err (hash_mismatch f.path))
    else err (hash_mismatch f.path)
hashes_to f _ = err (hash_mismatch f.path)

pub listed : String → List FileEntry → Bool
listed p [] = false
listed p (f ∷ fs) = f.path == p || listed p fs

-- isBundleMetadata
unfoldable pub is_bundle_metadata : String → Bool
is_bundle_metadata p = p == "manifest.json" || p == "manifest.sig"

check_listed : List FileEntry → FileEntry → Checked
check_listed files f =
    if is_bundle_metadata f.path
    then ok tt
    else if listed f.path files
    then ok tt
    else err (unmanifested_file f.path)

after_scan : Tree → List FileEntry → Result StoreError (List FileEntry) → Checked
after_scan tree files (err e) = err e
after_scan tree files (ok present) =
    and_then (each (λ f. exists_as f.path (node_at f.path tree)) files) (
      and_then (each (λ f. hashes_to f (node_at f.path tree)) files)
        (each (check_listed files) present))

-- VerifyAgainst
pub verify_against : Tree → List FileEntry → List Text → Checked
verify_against tree files allow =
    and_then (each (λ f. check_path allow f.path) files) (after_scan tree files (scan_dir tree))

payload_of : List FileEntry → List FileEntry
payload_of [] = []
payload_of (f ∷ fs) =
    let rest = payload_of fs in if is_bundle_metadata f.path then rest else f ∷ rest

measured :
    (List FileEntry → String)
    → Result StoreError (List FileEntry)
    → Result StoreError (List FileEntry × String)
measured content_root (ok fs) = ok (payload_of fs, content_root (payload_of fs))
measured content_root (err e) = err e

-- MeasureBundle, with the root of a file set as `content_root`.
pub measure_bundle : (List FileEntry → String) → Tree → Result StoreError (List FileEntry × String)
measure_bundle content_root tree = measured content_root (scan_dir tree)

abbrev pub content_root_domain : Text
content_root_domain = codes "arazu-content-root-v1\n"

-- `%d` of a signed integer, in digits.
pub signed_digits : ℤ → Text
signed_digits (pos n) = codes (decimal n)
signed_digits (negsuc n) = b'-' ∷ codes (decimal (suc n))

-- The line of a file under its digest: the fields are separated by NUL.
pub root_line : FileEntry → Text
root_line f = codes f.path ++ 0 ∷ (codes f.sha256 ++ 0 ∷ (signed_digits f.size ++ newline ∷ []))

pub root_lines : List FileEntry → Text
root_lines [] = []
root_lines (f ∷ fs) = root_line f ++ root_lines fs

-- What ContentRoot digests.
pub root_text : List FileEntry → Text
root_text files = content_root_domain ++ root_lines (sort_files files)

-- ContentRoot, with SHA-256 and its hexadecimal form as `sum`.
pub content_root : (Text → String) → List FileEntry → String
content_root sum files = sum (root_text files)
