-- ===== src/Manifest/Canonical.antt =====
-- The canonical form: what a manifest that parses has, and that it parses back.
use arazu.Prelude.{
  String, ◌==◌, eq_iff, ◌≡◌, ◌↔◌, refl, ap, sym, subst, ◌∙◌, false, not, not-true_iff, Result, ok,
  err, >>=_iff, guard->>_iff, map_err, map_err_iff, ok-injective, Text, text_eq, text_eq_iff,
  text_eq_refl,
}
use arazu.Manifest.Order.{sort_files_idem, trim_newlines_idem}
use arazu.Manifest.{
  Manifest, Json, schema, undecodable, trailing_data, unknown_schema, unencodable,
  not_in_canonical_form, trim_newlines, trimmed, in_order, canonical, parse,
}

trimmed-ok :
    (r : Result String Text) {c : Text}
    → trimmed r ≡ ok c
    → (t : Text) × (r ≡ ok t) × (trim_newlines t ≡ c)
unfolding trimmed
trimmed-ok (ok t) h = (t, refl, ok-injective h)
trimmed-ok (err e) h = cc

-- What `Parse` accepts: a manifest of the schema, alone in its text, whose canonical form the text
-- is but for newlines at its end.
pub record IsParsed (json : Json) (b : Text) (m : Manifest) : Type 0 where
  pub decoded : json.decode b ≡ ok (m, false)
  pub of_schema : m.schema_name ≡ schema
  pub is_canonical : canonical json m ≡ ok (trim_newlines b)

module _ (json : Json) where
  parse-ok : (b : Text) (m : Manifest) → parse json b ≡ ok m → IsParsed json b m
  unfolding parse
  parse-ok b m h =
      let ((m', more), d, h1) = (>>=_iff (map_err undecodable (json.decode b)) _).0 h in
      let (p, h2) = (guard->>_iff (not more) trailing_data _).0 h1 in
      let (s, h3) =
        (guard->>_iff (m'.schema_name == schema) (unknown_schema m'.schema_name) _).0 h2 in
      let (c, e, h4) = (>>=_iff (map_err unencodable (canonical json m')) _).0 h3 in
      let (q, h5) = (guard->>_iff (text_eq c (trim_newlines b)) not_in_canonical_form _).0 h4 in
      subst (λ x. IsParsed json b x) (ok-injective h5)
        (record {
          decoded =
              (map_err_iff undecodable (json.decode b)).0 d
              ∙ ap (λ x. ok (m', x)) ((not-true_iff more).0 p);
          of_schema = (eq_iff m'.schema_name schema).0 s;
          is_canonical =
              (map_err_iff unencodable (canonical json m')).0 e
              ∙ ap ok ((text_eq_iff c (trim_newlines b)).0 q);
        })

  ok-parse : (b : Text) (m : Manifest) → IsParsed json b m → parse json b ≡ ok m
  unfolding parse
  ok-parse b m p =
      rw
        (
          p.decoded,
          (eq_iff m.schema_name schema).1 p.of_schema,
          p.is_canonical,
          text_eq_refl (trim_newlines b),
        )
        refl

  -- A text parses exactly when it decodes to one manifest of the schema and is, but for newlines
  -- at its end, the canonical form of that manifest.
  pub parse-iff-IsParsed : (b : Text) (m : Manifest) → (parse json b ≡ ok m) ↔ IsParsed json b m
  parse-iff-IsParsed b m = (parse-ok b m, ok-parse b m)

in_order_idem : (m : Manifest) → in_order (in_order m) ≡ in_order m
in_order_idem m = ap (λ fs. record m { files = fs }) (sort_files_idem m.files)

trimmed_idem : (r : Result String Text) {c : Text} → trimmed r ≡ ok c → trim_newlines c ≡ c
trimmed_idem r h =
    let (t, e, q) = trimmed-ok r h in ap trim_newlines (sym q) ∙ trim_newlines_idem t ∙ q

module _ (json : Json) where
  -- The canonical form of a manifest of the schema parses back to the manifest with its files in the
  -- order of their paths, when the decoder reads back what the encoder wrote of that manifest.
  pub parse-canonical :
      (m : Manifest) (c : Text)
      → m.schema_name ≡ schema
      → canonical json m ≡ ok c
      → json.decode c ≡ ok (in_order m, false)
      → parse json c ≡ ok (in_order m)
  unfolding canonical
  parse-canonical m c s h d = (parse-iff-IsParsed json c (in_order m)).1 (record {
    decoded = d;
    of_schema = s;
    is_canonical =
        ap (λ x. trimmed (json.encode x)) (in_order_idem m)
        ∙ h
        ∙ ap ok (sym (trimmed_idem (json.encode (in_order m)) h));
  })
