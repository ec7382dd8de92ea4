-- ===== src/Manifest/Samples.antt =====
-- Versions 3 and 4 of a bundle of two files, a codec for them, and two keys that sign them.
use arazu.Prelude.{
  ℕ, String, Bool, true, false, List, [], ◌∷◌, ◌++◌, take, Result, ok, err, Text, codes, newline,
  text_eq, if◌then◌else◌, pos, ◌≡◌, ap, ◌<◌, ◌^◌, arith, ok-injective,
}
use arazu.ContentStore.{FileEntry, Tree, regular}
use arazu.Manifest.{Manifest, Json, schema, in_order}
use arazu.Manifest.Signatures.{Scheme, Keys}
use arazu.Ingress.Uint.{format_uint}

abbrev pub sample_files : List FileEntry
sample_files =
    record { path = "content/b.txt"; sha256 = "bb"; size = pos 2 }
    ∷ record { path = "content/a.txt"; sha256 = "aa"; size = pos 1 }
    ∷ []

abbrev pub bundle_manifest : ℕ → Manifest
bundle_manifest v = record {
  schema_name = schema;
  bundle_id = "b1";
  version = v;
  created = "2026-01-01T00:00:00Z";
  files = sample_files;
}

-- A manifest is written as its version, and the texts of versions 3 and 4 are read.
abbrev pub sample_json : Json
sample_json = record {
  encode = λ m. ok (format_uint m.version ++ newline ∷ []);
  decode = λ t.
      if text_eq t (codes "3")
      then ok (in_order (bundle_manifest 3), false)
      else if text_eq t (codes "4")
      then ok (in_order (bundle_manifest 4), false)
      else err "syntax error";
}

-- A key is known by its first byte, and a signature is that byte before the message.
abbrev pub sample_scheme : Scheme
sample_scheme = record {
  decode = λ t. ok t;
  key_sum = λ key. codes "id" ++ take 1 key;
  verifies = λ key msg sig. text_eq sig (take 1 key ++ msg);
}

abbrev pub key_file : Text
key_file =
    codes "# keys\nidA A123456789abcdef0123456789abcdef\nidB B123456789abcdef0123456789abcdef\n"

abbrev pub sample_keys : Keys
sample_keys =
    (codes "idA", codes "A123456789abcdef0123456789abcdef")
    ∷ (codes "idB", codes "B123456789abcdef0123456789abcdef")
    ∷ []

abbrev pub sample_tree : Tree
sample_tree =
    ("content/a.txt", regular "aa" 1)
    ∷ ("content/b.txt", regular "bb" 2)
    ∷ ("manifest.json", regular "mm" 9)
    ∷ []

abbrev pub sig_3 : Text
sig_3 = codes "ed25519 idA A3\ned25519 idB B3\n"

abbrev pub sig_4 : Text
sig_4 = codes "ed25519 idA A4\ned25519 idB B4\n"

abbrev pub signer_ids : List Text
signer_ids = codes "idA" ∷ codes "idB" ∷ []

chosen :
    (p q : Bool) {m : Manifest} {more : Bool}
    → Path
        (Result String (Manifest × Bool))
        (if p
          then ok (in_order (bundle_manifest 3), false)
          else if q
          then ok (in_order (bundle_manifest 4), false)
          else err "syntax error")
        (ok (m, more))
    → m.version < 2 ^ 64
chosen true q h = omega (arith, ap (λ x. x.0.version) (ok-injective h))
chosen false true h = omega (arith, ap (λ x. x.0.version) (ok-injective h))
chosen false false h = cc

pub sample_reads :
    (b : Text) (m : Manifest) (more : Bool)
    → sample_json.decode b ≡ ok (m, more)
    → m.version < 2 ^ 64
sample_reads b m more h = chosen (text_eq b (codes "3")) (text_eq b (codes "4")) h
