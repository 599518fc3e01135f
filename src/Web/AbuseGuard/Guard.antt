-- ===== src/Web/AbuseGuard/Guard.antt =====
-- src/web/authAbuseGuard.ts: the calls of the web server, the queue of writes and the restart.
use online_seller_control_hu.Common.{
  ℕ, ◌+◌, Bool, true, [], ◌∷◌, ◌++◌, Text, codes, if◌then◌else◌, Result, ok, throw, filter, length,
  is_empty, trim, take, ltb, leb, text_eq,
}
use online_seller_control_hu.Common.Dicts.{Dict, set, delete, has}
use online_seller_control_hu.Persistence.Files.{
  Disk, Slot, missing, damaged, holds, Writes, persist_rows,
}
use online_seller_control_hu.Web.AbuseGuard.{
  Bucket, GuardOptions, PersistedState, AuthAbuseGuard, Reply, all_logins, identifier_logins,
  source_logins, all_signups, source_signups, limited, prune, evict_oldest, assert_bucket_allowed,
  record_bucket, empty_state,
}

unfoldable pub queue_persist : AuthAbuseGuard → AuthAbuseGuard
queue_persist g = if g.persistent then record g { queued = g.queued ++ (g.state ∷ []) } else g

abbrev pub with_state : PersistedState → AuthAbuseGuard → AuthAbuseGuard
with_state s g = record g { state = s }

abbrev pub queue_if : Bool → AuthAbuseGuard → AuthAbuseGuard
queue_if queues g = if queues then queue_persist g else g

-- What follows a check that did not throw.
abbrev pub and_then : Reply → (AuthAbuseGuard → Reply) → Reply
and_then (ok _, g) next = next g
and_then (throw e, g) next = (throw e, g)

module _ (lower fingerprint : Text → Text) where
  abbrev pub identifier_key : Text → Text
  identifier_key value = fingerprint (take 254 (lower (trim value)))

  abbrev or_unknown : Text → Text
  or_unknown s = if is_empty s then codes "unknown" else s

  abbrev pub source_key_hash : Text → Text
  source_key_hash value = fingerprint (or_unknown (take 128 (lower (trim value))))

  unfoldable pub check_identifier : (identifier : Text) (now : ℕ) → AuthAbuseGuard → Reply
  check_identifier identifier now g =
      let o = g.options in
      let s = g.state in
      let r =
        assert_bucket_allowed s.login_failures (identifier_key identifier)
          o.login_per_identifier_limit o.login_per_identifier_window_ms now identifier_logins in
      (r.answer, queue_if r.queues (with_state (record s { login_failures = r.buckets }) g))

  unfoldable pub check_source : (source : Text) (now : ℕ) → AuthAbuseGuard → Reply
  check_source source now g =
      let o = g.options in
      let s = g.state in
      let r =
        assert_bucket_allowed s.source_login_failures (source_key_hash source)
          o.login_per_source_limit o.login_per_source_window_ms now source_logins in
      (r.answer, queue_if r.queues (with_state (record s { source_login_failures = r.buckets }) g))

  unfoldable pub assert_login_allowed :
      (identifier source : Text) (now : ℕ) → AuthAbuseGuard → Reply
  assert_login_allowed identifier source now g =
      let o = g.options in
      let all = prune now o.global_login_failure_window_ms g.state.global_login_failures in
      let g' = with_state (record g.state { global_login_failures = all }) g in
      if leb o.global_login_failure_limit (length all)
      then (throw (limited all_logins all o.global_login_failure_window_ms now), g')
      else and_then (check_identifier identifier now g') (check_source source now)

  unfoldable pub record_login_failure :
      (identifier source : Text) (now : ℕ) → AuthAbuseGuard → AuthAbuseGuard
  record_login_failure identifier source now g =
      let o = g.options in
      let s = g.state in
      queue_persist (
        with_state
          (record s {
            login_failures =
                evict_oldest
                  (record_bucket s.login_failures (identifier_key identifier)
                    o.login_per_identifier_window_ms now)
                  o.max_tracked_identifiers;
            source_login_failures =
                evict_oldest
                  (record_bucket s.source_login_failures (source_key_hash source)
                    o.login_per_source_window_ms now)
                  o.max_tracked_sources;
            global_login_failures =
                prune now o.global_login_failure_window_ms s.global_login_failures ++ (now ∷ []);
          })
          g)

  unfoldable pub record_login_success : (identifier : Text) → AuthAbuseGuard → AuthAbuseGuard
  record_login_success identifier g =
      let s = g.state in
      let key = identifier_key identifier in
      if has key s.login_failures
      then queue_persist (with_state (record s { login_failures = delete key s.login_failures }) g)
      else g

  unfoldable pub check_signup_source : (key : Text) (now : ℕ) → AuthAbuseGuard → Reply
  check_signup_source key now g =
      let o = g.options in
      let s = g.state in
      let r =
        assert_bucket_allowed s.source_signups key o.signup_per_source_limit
          o.signup_per_source_window_ms now source_signups in
      (r.answer, queue_if r.queues (with_state (record s { source_signups = r.buckets }) g))

  unfoldable pub record_signup : (key : Text) (now : ℕ) → AuthAbuseGuard → AuthAbuseGuard
  record_signup key now g =
      let o = g.options in
      let s = g.state in
      queue_persist (
        with_state
          (record s {
            global_signups = s.global_signups ++ (now ∷ []);
            source_signups =
                evict_oldest (record_bucket s.source_signups key o.signup_per_source_window_ms now)
                  o.max_tracked_sources;
          })
          g)

  unfoldable pub assert_and_record_signup_allowed :
      (source : Text) (now : ℕ) → AuthAbuseGuard → Reply
  assert_and_record_signup_allowed source now g =
      let o = g.options in
      let key = source_key_hash source in
      let all = prune now o.global_signup_window_ms g.state.global_signups in
      let g' = with_state (record g.state { global_signups = all }) g in
      if leb o.global_signup_limit (length all)
      then (throw (limited all_signups all o.global_signup_window_ms now), g')
      else and_then (check_signup_source key now g') (λ g''. (ok tt, record_signup key now g''))

-- `restoreBuckets`: buckets that have no attempt within the window are dropped.
unfoldable pub restore_into :
    (now window_ms : ℕ) → Dict Text Bucket → Dict Text Bucket → Dict Text Bucket
restore_into now window_ms [] target = target
restore_into now window_ms ((key, value) ∷ source) target =
    let attempts = filter (λ t. ltb now (t + window_ms)) value.attempts in
    let kept =
      restore_into now window_ms source
        (set key (record { attempts = attempts; last_seen_at = value.last_seen_at }) target) in
    let dropped = restore_into now window_ms source target in
    if is_empty attempts then dropped else kept

abbrev pub restore_buckets : (now window_ms : ℕ) → Dict Text Bucket → ℕ → Dict Text Bucket
restore_buckets now window_ms source max_size =
    evict_oldest (restore_into now window_ms source []) max_size

unfoldable pub restore : GuardOptions → (now : ℕ) → PersistedState → PersistedState
restore o now state = record {
  login_failures =
      restore_buckets now o.login_per_identifier_window_ms state.login_failures
        o.max_tracked_identifiers;
  source_login_failures =
      restore_buckets now o.login_per_source_window_ms state.source_login_failures
        o.max_tracked_sources;
  source_signups =
      restore_buckets now o.signup_per_source_window_ms state.source_signups o.max_tracked_sources;
  global_login_failures =
      filter (λ t. ltb now (t + o.global_login_failure_window_ms)) state.global_login_failures;
  global_signups = filter (λ t. ltb now (t + o.global_signup_window_ms)) state.global_signups;
}

-- One write of the queue; its failure is logged and forgotten.
unfoldable pub write_next : Writes → AuthAbuseGuard → AuthAbuseGuard
write_next w g = elim g.queued [
  | [] ↦ g
  | snapshot ∷ queued ↦ record g { queued = queued; disk = (persist_rows w snapshot g.disk).1 }
]

pub data GuardError : Type 0 where
  state_damaged : GuardError

abbrev pub open_guard : GuardOptions → PersistedState → Disk PersistedState → AuthAbuseGuard
open_guard o state disk = record {
  options = o;
  persistent = true;
  state = state;
  queued = [];
  disk = disk;
}

-- A state from the backup is queued for writing at once.
unfoldable pub load_backup :
    GuardOptions
    → ℕ
    → Disk PersistedState
    → Result GuardError AuthAbuseGuard
    → Slot PersistedState
    → Result GuardError AuthAbuseGuard
load_backup o now disk otherwise (holds state) =
    ok (queue_persist (open_guard o (restore o now state) disk))
load_backup o now disk otherwise missing = otherwise
load_backup o now disk otherwise damaged = throw state_damaged

unfoldable pub load_primary :
    GuardOptions → ℕ → Disk PersistedState → Slot PersistedState → Result GuardError AuthAbuseGuard
load_primary o now disk (holds state) = ok (open_guard o (restore o now state) disk)
load_primary o now disk damaged = load_backup o now disk (throw state_damaged) disk.backup
load_primary o now disk missing =
    load_backup o now disk (ok (open_guard o empty_state disk)) disk.backup

abbrev pub load : GuardOptions → ℕ → Disk PersistedState → Result GuardError AuthAbuseGuard
load o now disk = load_primary o now disk disk.primary
