-- ===== src/Ingress/Exit.antt =====
-- What the exit codes of the ingress gate stand for.
use arazu.Prelude.{
  ℕ, String, Bool, true, false, inl, inr, ◌⊎◌, ◌≡◌, ◌≢◌, ◌↔◌, refl, ap, sym, subst, Result, ok, err,
  ok-injective, Checks, Text, insert, if◌then◌else◌,
}
use arazu.ContentStore.{content_root}
use arazu.Manifest.{Manifest}
use arazu.Ingress.{
  Env, Run, World, Refusal, Decision, Write, Logging, Event, Outcome, written, not_written,
  cut_short, logged, no_directory, unavailable, ingress_accept, ingress_reject, blank_decision,
  reason_of, version_file, version_text, with_version, emit, append_log, reject, after_write,
  after_state, accept, decide, verify, command,
}
use arazu.Ingress.Vetted.{Vetted, verify-iff-Vetted}

-- The version of the manifest is the last accepted one of its bundle.
abbrev pub Advances : World → World → Manifest → Type 0
Advances w w' m = w'.versions ≡ insert (version_file m.bundle_id) (version_text m) w.versions

reject-code : (run : Run) (e : Refusal) (d : Decision) (w : World) → (reject run e d w).code ≢ 0
unfolding reject append_log emit
reject-code run e d w = by_logging run.logging
  where
    by_logging :
        (l : Logging)
        → (append_log l
            (ingress_reject d.bundle_id d.version (reason_of e))
            d
            w
            (λ w'. emit "REJECT" (reason_of e) 1 (record d { reason = reason_of e }) w')).code
          ≢ 0
    by_logging logged h = cc
    by_logging no_directory h = cc
    by_logging unavailable h = cc

accepted-log :
    (l : Logging) (e : Event) (d d' : Decision) (w : World)
    → (append_log l e d w (λ w'. emit "ACCEPT" "" 0 d' w')).code ≡ 0
    → (l ≢ unavailable)
      × ((append_log l e d w (λ w'. emit "ACCEPT" "" 0 d' w')).world.versions ≡ w.versions)
unfolding append_log emit
accepted-log logged e d d' w h = ((λ x. cc), refl)
accepted-log no_directory e d d' w h = ((λ x. cc), refl)
accepted-log unavailable e d d' w h = cc

after_write-accepts :
    (run : Run) (m : Manifest) (root : String) (write : Write) (d : Decision) (w : World)
    → (after_write run m root write d w).code ≡ 0
    → (write ≡ written)
      × (run.logging ≢ unavailable)
      × Advances w (after_write run m root write d w).world m
unfolding after_write with_version emit
after_write-accepts run m root written d w h =
    let (l, v) =
      accepted-log run.logging (ingress_accept m.bundle_id m.version root d.signers)
        (record d { content_root = root }) (record d { content_root = root })
        (with_version m (version_text m) w) h in
    (refl, l, v)
after_write-accepts run m root (not_written e) d w h = cc
after_write-accepts run m root (cut_short t e) d w h = cc

after_state-accepts :
    (run : Run) (m : Manifest) (root : String) (state : Checks String) (d : Decision) (w : World)
    → (after_state run m root state d w).code ≡ 0
    → (state ≡ ok tt)
      × (run.write ≡ written)
      × (run.logging ≢ unavailable)
      × Advances w (after_state run m root state d w).world m
unfolding after_state emit
after_state-accepts run m root (ok _) d w h =
    let (a, b, c) = after_write-accepts run m root run.write d w h in (refl, a, b, c)
after_state-accepts run m root (err e) d w h = cc

-- What a run is that accepts a manifest.
pub record Accepts (env : Env) (run : Run) (w : World) (m : Manifest) : Type 0 where
  pub flags : run.has_flags ≡ true
  pub vetted : Vetted env run w.versions m
  pub state_made : run.make_state ≡ ok tt
  pub version_written : run.write ≡ written
  pub recordable : run.logging ≢ unavailable

decide-accepts :
    (run : Run) (w : World) (v : Result Refusal (Manifest × String) × Decision)
    → (decide run w v).code ≡ 0
    → (m : Manifest) × (root : String) × (v.0 ≡ ok (m, root))
      × (run.make_state ≡ ok tt)
      × (run.write ≡ written)
      × (run.logging ≢ unavailable)
      × Advances w (decide run w v).world m
unfolding decide accept
decide-accepts run w (err e, d) h = absurd (reject-code run e d w h)
decide-accepts run w (ok (m, root), d) h =
    let (a, b, c, v) = after_state-accepts run m root run.make_state d w h in
    (m, root, refl, a, b, c, v)

log-accepted :
    (l : Logging) (e : Event) (d d' : Decision) (w : World)
    → l ≢ unavailable
    → (append_log l e d w (λ w'. emit "ACCEPT" "" 0 d' w')).code ≡ 0
unfolding append_log emit
log-accepted logged e d d' w h = refl
log-accepted no_directory e d d' w h = refl
log-accepted unavailable e d d' w h = absurd (h refl)

accepts-decide :
    (run : Run) (w : World) (m : Manifest) (root : String)
    (v : Result Refusal (Manifest × String) × Decision)
    → v.0 ≡ ok (m, root)
    → run.make_state ≡ ok tt
    → run.write ≡ written
    → run.logging ≢ unavailable
    → (decide run w v).code ≡ 0
unfolding decide accept after_state after_write
accepts-decide run w m root (err e, d) h a b c = cc
accepts-decide run w m root (ok (m', root'), d) h a b c =
    rw (a, b) (log-accepted run.logging _ _ _ _ c)

logged-versions :
    (l : Logging) (e : Event) (d d' : Decision) (w : World) (dec reason : String) (code : ℕ)
    → (append_log l e d w (λ w'. emit dec reason code d' w')).world.versions ≡ w.versions
unfolding append_log emit
logged-versions logged e d d' w dec reason code = refl
logged-versions no_directory e d d' w dec reason code = refl
logged-versions unavailable e d d' w dec reason code = refl

decide-Advances :
    (run : Run) (w : World) (m : Manifest) (root : String)
    (v : Result Refusal (Manifest × String) × Decision)
    → v.0 ≡ ok (m, root)
    → run.make_state ≡ ok tt
    → run.write ≡ written
    → Advances w (decide run w v).world m
unfolding decide accept after_state after_write with_version
decide-Advances run w m root (err e, d) h a b = cc
decide-Advances run w m root (ok (m', root'), d) h a b =
    let same = sym (ap (λ x. x.0) (ok-injective h)) in
    subst
      (λ x.
        (decide run w (ok (x, root'), d)).world.versions
        ≡ insert (version_file m.bundle_id) (version_text m) w.versions)
      same
      (rw (a, b)
        (logged-versions run.logging (ingress_accept m.bundle_id m.version root' d.signers)
          (record d { content_root = root' }) (record d { content_root = root' })
          (with_version m (version_text m) w) "ACCEPT" "" 0))

flags-given :
    (b : Bool) (o : Outcome) (w : World)
    → (if b then o else emit "ERROR" "usage" 2 blank_decision w).code ≡ 0
    → (b ≡ true) × ((if b then o else emit "ERROR" "usage" 2 blank_decision w) ≡ o)
unfolding emit
flags-given true o w h = (refl, refl)
flags-given false o w h = cc

flags-same :
    (b : Bool) (o : Outcome) (w : World)
    → b ≡ true
    → (if b then o else emit "ERROR" "usage" 2 blank_decision w) ≡ o
flags-same true o w e = refl
flags-same false o w e = cc

flags-pass :
    (b : Bool) (o : Outcome) (w : World)
    → b ≡ true
    → o.code ≡ 0
    → (if b then o else emit "ERROR" "usage" 2 blank_decision w).code ≡ 0
flags-pass true o w e h = h
flags-pass false o w e h = cc

command-Accepts :
    (env : Env) (run : Run) (w : World)
    → (command env run w).code ≡ 0
    → (m : Manifest) × Accepts env run w m × Advances w (command env run w).world m
unfolding command
command-Accepts env run w h =
    let v = verify env run w.versions blank_decision in
    let (f, same) = flags-given run.has_flags (decide run w v) w h in
    let (m, root, r, a, b, c, adv) = decide-accepts run w v (subst (λ o. o.code ≡ 0) same h) in
    (
      m,
      record {
        flags = f;
        vetted = ((verify-iff-Vetted env run w.versions blank_decision m root).0 r).0;
        state_made = a;
        version_written = b;
        recordable = c;
      },
      subst (λ o. Advances w o.world m) (sym same) adv,
    )

Accepts-command :
    (env : Env) (run : Run) (w : World) (m : Manifest)
    → Accepts env run w m
    → (command env run w).code ≡ 0
unfolding command
Accepts-command env run w m a =
    flags-pass run.has_flags (decide run w (verify env run w.versions blank_decision)) w a.flags (
      accepts-decide run w m (content_root env.sum m.files)
        (verify env run w.versions blank_decision)
        ((verify-iff-Vetted env run w.versions blank_decision m (content_root env.sum m.files)).1
          (a.vetted, refl))
        a.state_made a.version_written a.recordable)

pub Accepts-Advances :
    (env : Env) (run : Run) (w : World) (m : Manifest)
    → Accepts env run w m
    → Advances w (command env run w).world m
unfolding command
Accepts-Advances env run w m a =
    let v = verify env run w.versions blank_decision in
    subst (λ o. Advances w o.world m) (sym (flags-same run.has_flags (decide run w v) w a.flags))
      (decide-Advances run w m (content_root env.sum m.files) v
        ((verify-iff-Vetted env run w.versions blank_decision m (content_root env.sum m.files)).1
          (a.vetted, refl))
        a.state_made a.version_written)

-- The command exits with 0 exactly when some manifest is vetted, its version is written to the state
-- and the log can be appended to, or its directory is missing; the version file of the bundle then
-- holds that version.
pub command-iff-Accepts :
    (env : Env) (run : Run) (w : World)
    → ((command env run w).code ≡ 0)
      ↔ ((m : Manifest) × Accepts env run w m × Advances w (command env run w).world m)
command-iff-Accepts env run w =
    (command-Accepts env run w, (λ (m, a, v). Accepts-command env run w m a))

-- The versions that a run leaves: those it found, or those with the vetted manifest's version, or
-- those with what a write that failed left of it.
abbrev pub Left : Env → Run → World → World → Type 0
Left env run w w' =
    (w'.versions ≡ w.versions)
    ⊎ ((m : Manifest) × Vetted env run w.versions m × Advances w w' m)
    ⊎ ((t : Text) × (e : String) × (run.write ≡ cut_short t e))

module _ (env : Env) (run : Run) (w : World) where
  after_write-Left :
      (m : Manifest) (root : String) (write : Write) (d : Decision)
      → run.write ≡ write
      → Vetted env run w.versions m
      → Left env run w (after_write run m root write d w).world
  unfolding after_write with_version emit
  after_write-Left m root written d q v = inr (
      inl (
        m,
        v,
        logged-versions run.logging (ingress_accept m.bundle_id m.version root d.signers)
            (record d { content_root = root }) (record d { content_root = root })
            (with_version m (version_text m) w) "ACCEPT" "" 0,
      ))
  after_write-Left m root (not_written e) d q v = inl refl
  after_write-Left m root (cut_short t e) d q v = inr (inr (t, e, q))

  after_state-Left :
      (m : Manifest) (root : String) (state : Checks String) (d : Decision)
      → Vetted env run w.versions m
      → Left env run w (after_state run m root state d w).world
  unfolding after_state emit
  after_state-Left m root (ok _) d v = after_write-Left m root run.write d refl v
  after_state-Left m root (err e) d v = inl refl

  decide-Left :
      (v : Result Refusal (Manifest × String) × Decision)
      → ((m : Manifest) (root : String) → v.0 ≡ ok (m, root) → Vetted env run w.versions m)
      → Left env run w (decide run w v).world
  unfolding decide accept reject
  decide-Left (err e, d) f = inl (
      logged-versions run.logging (ingress_reject d.bundle_id d.version (reason_of e)) d
        (record d { reason = reason_of e }) w "REJECT" (reason_of e) 1)
  decide-Left (ok (m, root), d) f = after_state-Left m root run.make_state d (f m root refl)

  flags-Left :
      (b : Bool) (o : Outcome)
      → Left env run w o.world
      → Left env run w (if b then o else emit "ERROR" "usage" 2 blank_decision w).world
  unfolding emit
  flags-Left true o h = h
  flags-Left false o h = inl refl

  pub command-Left : Left env run w (command env run w).world
  unfolding command
  command-Left =
      flags-Left run.has_flags (decide run w (verify env run w.versions blank_decision)) (
        decide-Left (verify env run w.versions blank_decision)
          (λ m root h. ((verify-iff-Vetted env run w.versions blank_decision m root).0 h).0))
