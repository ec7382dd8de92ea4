-- ===== src/ContentStore/Tests.antt =====
-- Bundles that are accepted and refused.
use arazu.Prelude.{
  and_then, each, ◌≡◌, ◌↔◌, refl, List, [], ◌∷◌, ok, err, Text, codes, pos, not, ◌&&◌, Bool, true,
  nat_eq, decimal, arith,
}
use arazu.Manifest.{in_order}
use arazu.Manifest.Samples.{bundle_manifest, sample_tree}
use arazu.ContentStore.Root.{Without, NoNul, all_fields, root_text-injective}
use arazu.ContentStore.{
  FileEntry, Tree, directory, regular, unmanifested_file, unsafe_path, allowlist_violation,
  check_path, verify_against, measure_bundle, after_scan, scan_dir, walk, found, sorted, sort_files,
  insert_file, before, node_at, exists_as, hashes_to, size_is, check_listed, listed,
  is_bundle_metadata, measured, payload_of, root_text, root_lines, root_line, signed_digits,
}
use arazu.ContentStore.Accepts.{Matches, verify_against-iff-Matches}

abbrev allow : List Text
allow = codes "content/" ∷ []

abbrev file_a : FileEntry
file_a = record { path = "content/a.txt"; sha256 = "aa"; size = pos 3 }

abbrev file_b : FileEntry
file_b = record { path = "content/b.txt"; sha256 = "bb"; size = pos 12 }

abbrev bundle : Tree
bundle =
    ("content", directory)
    ∷ ("content/a.txt", regular "aa" 3)
    ∷ ("manifest.json", regular "mm" 9)
    ∷ []

check_path_examples :
    (check_path allow "content/a.txt" ≡ ok tt)
    × (check_path allow "content/../manifest.json" ≡ err (unsafe_path "content/../manifest.json"))
    × (check_path allow "../content/a.txt" ≡ err (unsafe_path "../content/a.txt"))
    × (check_path allow "/content/a.txt" ≡ err (unsafe_path "/content/a.txt"))
    × (check_path allow "bin/sh" ≡ err (allowlist_violation "bin/sh"))
unfolding check_path
check_path_examples = (refl, refl, refl, refl, refl)

verify_extra :
    verify_against (("content/b.txt", regular "bb" 1) ∷ bundle) (file_a ∷ []) allow
    ≡ err (unmanifested_file "content/b.txt")
unfolding verify_against check_path and_then each after_scan scan_dir walk found sorted sort_files
    insert_file before node_at exists_as hashes_to size_is check_listed listed is_bundle_metadata
verify_extra = refl

-- A manifest that lists a file twice is accepted, and its list is not the payload that is measured.
verify_twice :
    (verify_against bundle (file_a ∷ file_a ∷ []) allow ≡ ok tt)
    × (measure_bundle (λ fs. "root") bundle ≡ ok (file_a ∷ [], "root"))
unfolding verify_against check_path and_then each after_scan scan_dir walk found sorted sort_files
    insert_file before node_at exists_as hashes_to size_is check_listed listed is_bundle_metadata
    measure_bundle measured payload_of
verify_twice = (refl, refl)

verify_against-iff-Matches_example :
    (verify_against bundle (file_a ∷ []) allow ≡ ok tt) ↔ Matches bundle (file_a ∷ []) allow
verify_against-iff-Matches_example = verify_against-iff-Matches bundle (file_a ∷ []) allow

-- The bundle of the ingress gate's samples.
pub verify_sample :
    verify_against sample_tree (in_order (bundle_manifest 3)).files (codes "content/" ∷ []) ≡ ok tt
unfolding verify_against check_path and_then each after_scan scan_dir walk found sorted sort_files
    insert_file before node_at exists_as hashes_to size_is check_listed listed is_bundle_metadata
verify_sample = refl

-- Two orders of one list are digested as one text.
swapped_root : root_text (file_b ∷ file_a ∷ []) ≡ root_text (file_a ∷ file_b ∷ [])
unfolding root_text root_lines root_line signed_digits sort_files insert_file before decimal
swapped_root = refl

lacks_nul : Text → Bool
lacks_nul [] = true
lacks_nul (c ∷ t) = not (nat_eq c 0) && lacks_nul t

lacks_nul-Without : (t : Text) → lacks_nul t ≡ true → Without 0 t
unfolding lacks_nul
lacks_nul-Without [] h = tt
lacks_nul-Without (c ∷ t) h = (ground arith, lacks_nul-Without t (ground arith))

file_a-NoNul : NoNul file_a
unfolding lacks_nul
file_a-NoNul = (lacks_nul-Without (codes "content/a.txt") refl, lacks_nul-Without (codes "aa") refl)

file_b-NoNul : NoNul file_b
unfolding lacks_nul
file_b-NoNul = (lacks_nul-Without (codes "content/b.txt") refl, lacks_nul-Without (codes "bb") refl)

root_text-injective_example :
    all_fields (sort_files (file_b ∷ file_a ∷ [])) ≡ all_fields (sort_files (file_a ∷ file_b ∷ []))
root_text-injective_example =
    root_text-injective (file_b ∷ file_a ∷ []) (file_a ∷ file_b ∷ [])
      (file_b-NoNul, (file_a-NoNul, tt)) (file_a-NoNul, (file_b-NoNul, tt)) swapped_root
