-- ===== src/Ingress/Versions.antt =====
-- The version files of the ingress gate over a sequence of runs.
use arazu.Prelude.{
  ℕ, ◌^◌, ◌≤◌, ◌<◌, String, Bool, false, Bool-cases, inl, inr, ◌≡◌, ◌≢◌, refl, ap, sym, subst, ◌∙◌,
  arith, List, Option, none, some, ok, ok-injective, Text, text_eq, text_eq_iff, lookup, insert,
  lookup-insert_same, lookup-insert_other, some_or,
}
use arazu.Manifest.{Manifest}
use arazu.Ingress.Uint.{parse_uint-format_uint}
use arazu.Ingress.{
  Env, Run, World, Decision, Event, Logging, logged, no_directory, unavailable, written, append_log,
  emit, with_version, after_write, after_state, accept, cut_short, state_malformed, version_file,
  version_text, stored_version, or_state_error, last_accepted, command,
}
use arazu.Ingress.Vetted.{Vetted}
use arazu.Ingress.Exit.{Accepts, Accepts-Advances, command-Left}

abbrev pub Versions : Type 0
Versions = List (Text × Text)

-- The version file of the bundle is missing and `n` is 0, or it says `n`.
abbrev pub LastIs : Versions → Text → ℕ → Type 0
LastIs versions file n = stored_version (lookup file versions) ≡ ok n

-- A version is a uint64: encoding/json decodes no other into that field.
abbrev pub Reads64 : Env → Type 0
Reads64 env =
    (b : Text) (m : Manifest) (more : Bool) → env.json.decode b ≡ ok (m, more) → m.version < 2 ^ 64

-- One run of the command, in which the write of the version file is not cut short.
pub data Step (env : Env) : World → World → Type 0 where
  one_run :
      (run : Run) (w : World)
      → ((t : Text) (e : String) → run.write ≢ cut_short t e)
      → Step env w (command env run w).world

pub data Reach (env : Env) (w : World) : World → Type 0 where
  here : Reach env w w
  later : {t u : World} → Reach env w t → Step env t u → Reach env w u

last_accepted-LastIs :
    (state_error : Option String) (versions : Versions) (bundle_id : String) (n : ℕ)
    → last_accepted state_error versions bundle_id ≡ ok n
    → LastIs versions (version_file bundle_id) n
unfolding last_accepted or_state_error
last_accepted-LastIs none versions bundle_id n h = h
last_accepted-LastIs (some e) versions bundle_id n h = cc

version_text-read :
    (m : Manifest) → m.version < 2 ^ 64 → stored_version (some (version_text m)) ≡ ok m.version
unfolding stored_version version_text
version_text-read m h = ap (some_or state_malformed) (parse_uint-format_uint m.version h)

advance-LastIs :
    (versions : Versions) (m : Manifest)
    → m.version < 2 ^ 64
    → LastIs
        (insert (version_file m.bundle_id) (version_text m) versions)
        (version_file m.bundle_id)
        m.version
advance-LastIs versions m h =
    ap stored_version (lookup-insert_same (version_file m.bundle_id) (version_text m) versions)
    ∙ version_text-read m h

append_log-versions :
    (l : Logging) (e : Event) (d d' : Decision) (w : World)
    → (append_log l e d w (λ w'. emit "ACCEPT" "" 0 d' w')).world.versions ≡ w.versions
unfolding append_log emit
append_log-versions logged e d d' w = refl
append_log-versions no_directory e d d' w = refl
append_log-versions unavailable e d d' w = refl

accept-versions :
    (run : Run) (m : Manifest) (root : String) (d : Decision) (w : World)
    → run.make_state ≡ ok tt
    → run.write ≡ written
    → (accept run m root d w).world.versions
      ≡ insert (version_file m.bundle_id) (version_text m) w.versions
unfolding accept after_state after_write with_version
accept-versions run m root d w s h =
    ap (λ x. (after_state run m root x d w).world.versions) s
    ∙ (ap (λ x. (after_write run m root x d w).world.versions) h
        ∙ append_log-versions run.logging _ _ _ _)

-- What an acceptance writes is what later runs read: when the state directory can be made and the
-- write is whole, the last accepted version of every bundle that shares the version file is the
-- manifest's, when that fits 64 bits, whatever becomes of the log, and that of any other bundle is
-- what it was.
pub accept-last_accepted :
    (run : Run) (m : Manifest) (root : String) (d : Decision) (w : World) (bundle_id : String)
    → run.make_state ≡ ok tt
    → run.write ≡ written
    → m.version < 2 ^ 64
    → let after = (accept run m root d w).world.versions in
      (version_file bundle_id ≡ version_file m.bundle_id
        → last_accepted none after bundle_id ≡ ok m.version)
      × (version_file bundle_id ≢ version_file m.bundle_id
          → last_accepted none after bundle_id ≡ last_accepted none w.versions bundle_id)
unfolding last_accepted or_state_error
accept-last_accepted run m root d w bundle_id s h l =
    let v = accept-versions run m root d w s h in
    let at = version_file m.bundle_id in
    (
      (λ e.
          ap (λ vs. stored_version (lookup (version_file bundle_id) vs)) v
          ∙ (ap (λ f. stored_version (lookup f (insert at (version_text m) w.versions))) e
              ∙ advance-LastIs w.versions m l)),
      (λ n.
          ap (λ vs. stored_version (lookup (version_file bundle_id) vs)) v
          ∙ ap stored_version (
              lookup-insert_other (version_file bundle_id) at (version_text m) w.versions
                (elim (Bool-cases (text_eq at (version_file bundle_id))) [
                  | inl b ↦ absurd (n (sym ((text_eq_iff at (version_file bundle_id)).0 b)))
                  | inr b ↦ b
                ]))),
    )

module _ {env : Env} (reads : Reads64 env) where
  Vetted-bound :
      {run : Run} {versions : Versions} {m : Manifest}
      → Vetted env run versions m
      → m.version < 2 ^ 64
  Vetted-bound {m = m} v = reads v.canonical m false v.parsed.decoded

  Vetted-grows :
      {run : Run} (versions : Versions) (m : Manifest) (file : Text) (n : ℕ)
      → Vetted env run versions m
      → LastIs versions file n
      → (k : ℕ) × LastIs (insert (version_file m.bundle_id) (version_text m) versions) file k
        × (n ≤ k)
  Vetted-grows {run} versions m file n v l =
      let of = version_file m.bundle_id in
      elim (Bool-cases (text_eq of file)) [
        | inl e ↦
            let same = (text_eq_iff of file).0 e in
            let q = ok-injective (
              sym l
              ∙ sym (ap (λ f. stored_version (lookup f versions)) same)
              ∙ last_accepted-LastIs run.state_error versions m.bundle_id v.last v.last_read) in
            (
              m.version,
              subst (λ f. LastIs (insert of (version_text m) versions) f m.version) same
                  (advance-LastIs versions m (Vetted-bound v)),
              omega (arith, q, v.newer_version),
            )
        | inr e ↦ (
          n,
          ap stored_version (lookup-insert_other file of (version_text m) versions e) ∙ l,
          omega arith,
        )
      ]

  Step-grows :
      {w w' : World} (file : Text) (n : ℕ)
      → Step env w w'
      → LastIs w.versions file n
      → (k : ℕ) × LastIs w'.versions file k × (n ≤ k)
  Step-grows file n (one_run run w whole) l = elim (command-Left env run w) [
    | inl e ↦ (n, subst (λ v. LastIs v file n) (sym e) l, omega arith)
    | inr (inl (m, v, a)) ↦
        subst (λ vs. (k : ℕ) × LastIs vs file k × (n ≤ k)) (sym a)
          (Vetted-grows w.versions m file n v l)
    | inr (inr (t, e, c)) ↦ absurd (whole t e c)
  ]

  -- Over any runs in which no write of a version file is cut short, the version that a file says
  -- never decreases, when the versions of manifests fit 64 bits.
  pub last_accepted-grows :
      {w w' : World} (file : Text) (n : ℕ)
      → Reach env w w'
      → LastIs w.versions file n
      → (k : ℕ) × LastIs w'.versions file k × (n ≤ k)
  last_accepted-grows file n here l = (n, l, omega arith)
  last_accepted-grows file n (later r s) l =
      let (k, l', le) = last_accepted-grows file n r l in
      let (j, l'', le') = Step-grows file k s l' in (j, l'', omega (arith, le, le'))

  -- Once a manifest is accepted, one that is accepted later for the same version file is newer, over
  -- any runs in between in which no write of a version file is cut short, when the versions of
  -- manifests fit 64 bits.
  pub accepted-newer :
      (run run' : Run) (w w' : World) (m m' : Manifest)
      → Accepts env run w m
      → Reach env (command env run w).world w'
      → version_file m'.bundle_id ≡ version_file m.bundle_id
      → Accepts env run' w' m'
      → m.version < m'.version
  accepted-newer run run' w w' m m' a r same a' =
      let start =
        subst (λ vs. LastIs vs (version_file m.bundle_id) m.version)
          (sym (Accepts-Advances env run w m a))
          (advance-LastIs w.versions m (Vetted-bound a.vetted)) in
      let (k, l, grows) = last_accepted-grows (version_file m.bundle_id) m.version r start in
      let v = a'.vetted in
      let q = ok-injective (
        sym l
        ∙ sym (ap (λ f. stored_version (lookup f w'.versions)) same)
        ∙ last_accepted-LastIs run'.state_error w'.versions m'.bundle_id v.last v.last_read) in
      omega (arith, q, grows, v.newer_version)
