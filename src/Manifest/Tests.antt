-- ===== src/Manifest/Tests.antt =====
-- The canonical forms of the samples.
use arazu.Prelude.{◌≡◌, ◌↔◌, refl, ok, codes, text_eq}
use arazu.ContentStore.{sort_files, insert_file, before}
use arazu.Manifest.{in_order, trim_newlines, trimmed, canonical, parse}
use arazu.Manifest.Canonical.{IsParsed, parse-iff-IsParsed, parse-canonical}
use arazu.Manifest.Samples.{bundle_manifest, sample_json}
use arazu.Ingress.Uint.{format_uint}

canonical_sample : canonical sample_json (bundle_manifest 3) ≡ ok (codes "3")
unfolding canonical trimmed trim_newlines format_uint
canonical_sample = refl

pub parse_3 : parse sample_json (codes "3") ≡ ok (in_order (bundle_manifest 3))
unfolding parse canonical trimmed trim_newlines text_eq sort_files insert_file before format_uint
parse_3 = refl

pub parse_4 : parse sample_json (codes "4") ≡ ok (in_order (bundle_manifest 4))
unfolding parse canonical trimmed trim_newlines text_eq sort_files insert_file before format_uint
parse_4 = refl

parse-iff-IsParsed_example :
    (parse sample_json (codes "3") ≡ ok (in_order (bundle_manifest 3)))
    ↔ IsParsed sample_json (codes "3") (in_order (bundle_manifest 3))
parse-iff-IsParsed_example =
    parse-iff-IsParsed sample_json (codes "3") (in_order (bundle_manifest 3))

parse-canonical_example : parse sample_json (codes "3") ≡ ok (in_order (bundle_manifest 3))
unfolding text_eq
parse-canonical_example =
    parse-canonical sample_json (bundle_manifest 3) (codes "3") refl canonical_sample refl
