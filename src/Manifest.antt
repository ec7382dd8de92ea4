-- ===== src/Manifest.antt =====
-- pkg/manifest/manifest.go: the manifest of a bundle, its canonical form and its parser. The JSON
-- encoder and decoder (encoding/json) are the parameter `Json`; sort.Slice is the insertion sort of
-- the content store, which leaves the order of equal paths as it was.
mod Order
pub mod Canonical
pub mod Signatures
pub mod Samples
pub mod Tests
use arazu.Prelude.{
  ℕ, String, ◌==◌, Bool, true, false, not, List, [], ◌∷◌, Result, ok, err, ◌>>=◌, ◌>>◌, guard,
  map_err, Text, newline, text_eq, nat_eq, if◌then◌else◌,
}
use arazu.ContentStore.{FileEntry, sort_files}

abbrev pub schema : String
schema = "arazu.bundle/v1"

-- Manifest, with `schema_name` for its Schema.
pub record Manifest : Type 0 where
  pub schema_name : String
  pub bundle_id : String
  pub version : ℕ
  pub created : String
  pub files : List FileEntry

-- What is used of encoding/json: `encode` ends its text with a newline, `decode` says also whether
-- more follows the value, and knows no field that the manifest does not have.
pub record Json : Type 0 where
  pub encode : Manifest → Result String Text
  pub decode : Text → Result String (Manifest × Bool)

pub data ParseError : Type 0 where
  undecodable : String → ParseError
  trailing_data : ParseError
  unknown_schema : String → ParseError
  unencodable : String → ParseError
  not_in_canonical_form : ParseError

-- bytes.TrimRight(b, "\n")
unfoldable pub trim_newlines : Text → Text
trim_newlines [] = []
trim_newlines (c ∷ t) = elim (trim_newlines t) [
  | [] ↦ if nat_eq c newline then [] else c ∷ []
  | d ∷ u ↦ c ∷ d ∷ u
]

trimmed : Result String Text → Result String Text
unfolding trim_newlines
trimmed (ok t) = ok (trim_newlines t)
trimmed (err e) = err e

-- The manifest with its files in the order of their paths.
abbrev pub in_order : Manifest → Manifest
in_order m = record m { files = sort_files m.files }

module _ (json : Json) where
  -- Manifest.Canonical
  pub canonical : Manifest → Result String Text
  canonical m = trimmed (json.encode (in_order m))

  -- Parse
  pub parse : Text → Result ParseError Manifest
  parse b = do
    (m, more) ← map_err undecodable (json.decode b)
    guard (not more) trailing_data
    guard (m.schema_name == schema) (unknown_schema m.schema_name)
    c ← map_err unencodable (canonical m)
    guard (text_eq c (trim_newlines b)) not_in_canonical_form
    ok m
