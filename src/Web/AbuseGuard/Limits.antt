-- ===== src/Web/AbuseGuard/Limits.antt =====
-- src/web/authAbuseGuard.ts: the limit on sign-ups holds in every window, and what a call answers.
use mathlib.Core.List.{append-nil, append_assoc}
use online_seller_control_hu.Common.{
  ℕ, ◌≤◌, ◌<◌, ◌≡◌, ◌↔◌, refl, ◌∙◌, subst, Option, none, some, List, [], ◌∷◌, ◌++◌, Text, text_eq,
  length, arith, ok,
}
use online_seller_control_hu.Common.Dicts.{Dict, get}
use online_seller_control_hu.Web.AbuseGuard.{
  AuthAbuseGuard, GuardOptions, Bucket, LimitMessage, prune, attempts_of, assert_bucket_allowed,
  assert_found, assert_attempts, source_signups, identifier_logins, source_logins,
}
use online_seller_control_hu.Web.AbuseGuard.Guard.{
  assert_and_record_signup_allowed, assert_login_allowed, check_signup_source, check_identifier,
  check_source, source_key_hash, identifier_key, queue_persist,
}
use online_seller_control_hu.Web.AbuseGuard.Windows.{
  count_in, IsAscending, prune_lem, count_in_later,
}
use online_seller_control_hu.Web.AbuseGuard.Signups.{
  GuardRequest, serve, run, IsTimed, last_time, IsTracked, serve-IsTracked, serve-options,
}

module _ (lower fingerprint : Text → Text) where
  run-IsTracked :
      (past : List ℕ) (clock : ℕ) (requests : List (ℕ × GuardRequest)) (g : AuthAbuseGuard)
      → IsTimed clock requests
      → IsTracked past clock g
      → IsTracked
          (past ++ (run lower fingerprint requests g).0)
          (last_time clock requests)
          (run lower fingerprint requests g).1
  unfolding run
  run-IsTracked past clock [] g t i = rw (append-nil past) i
  run-IsTracked past clock ((now, request) ∷ requests) g t i =
      let s = serve lower fingerprint now request g in
      rw (← append_assoc past s.0 (run lower fingerprint requests s.1).0) (
        run-IsTracked (past ++ s.0) now requests s.1 t.1
          (serve-IsTracked lower fingerprint past clock now request g t.0 i))

  run-options :
      (requests : List (ℕ × GuardRequest)) (g : AuthAbuseGuard)
      → (run lower fingerprint requests g).1.options ≡ g.options
  unfolding run
  run-options [] g = refl
  run-options ((now, request) ∷ requests) g =
      run-options requests (serve lower fingerprint now request g).1
      ∙ serve-options lower fingerprint now request g

  -- From a guard without sign-ups, whatever is requested, and from wherever: at any time from the last
  -- request on, no more sign-ups were let through within the last window than the limit for all
  -- sources. The clock does not go back.
  pub signups_bounded :
      (requests : List (ℕ × GuardRequest)) (g : AuthAbuseGuard) (later : ℕ)
      → g.state.global_signups ≡ []
      → IsTimed 0 requests
      → last_time 0 requests ≤ later
      → count_in later g.options.global_signup_window_ms (run lower fingerprint requests g).0
        ≤ g.options.global_signup_limit
  signups_bounded requests g later start timed k =
      let fresh : IsTracked [] 0 g = record {
        ascending = rw start tt;
        up_to = rw start tt;
        counts = λ t h. rw start refl;
        bounded = rw start (omega arith);
      } in
      let i = run-IsTracked [] 0 requests g timed fresh in
      let g' = (run lower fingerprint requests g).1 in
      let same = run-options requests g in
      let here : count_in later g'.options.global_signup_window_ms
            (run lower fingerprint requests g).0
          ≤ g'.options.global_signup_limit =
        omega (
          arith,
          i.counts later k,
          i.bounded,
          count_in_later g'.options.global_signup_window_ms (last_time 0 requests) later
              g'.state.global_signups k,
        ) in
      subst
        (λ o.
          count_in later o.global_signup_window_ms (run lower fingerprint requests g).0
          ≤ o.global_signup_limit)
        same here

module _ (buckets : Dict Text Bucket) (key : Text) (limit window_ms now : ℕ)
    (message : LimitMessage) (one : 1 ≤ limit) where
  assert_attempts_iff :
      (ts : List ℕ)
      → ((assert_attempts buckets key limit window_ms now message ts).answer ≡ ok tt)
        ↔ (length ts < limit)
  unfolding assert_attempts
  assert_attempts_iff [] = (λ h. omega (arith, one), λ h. refl)
  assert_attempts_iff (t ∷ ts) = (λ h. ground arith, λ h. ground arith)

  assert_found_iff :
      (found : Option Bucket)
      → IsAscending (attempts_of found)
      → ((assert_found buckets key limit window_ms now message found).answer ≡ ok tt)
        ↔ (count_in now window_ms (attempts_of found) < limit)
  unfolding assert_found
  assert_found_iff none a = (λ h. omega (arith, one), λ h. refl)
  assert_found_iff (some b) a = rw (prune_lem now window_ms b.attempts a) (assert_attempts_iff _)

  -- A bucket lets a call through exactly if it has fewer attempts in the window than the limit.
  bucket_iff :
      IsAscending (attempts_of (get key buckets))
      → ((assert_bucket_allowed buckets key limit window_ms now message).answer ≡ ok tt)
        ↔ (count_in now window_ms (attempts_of (get key buckets)) < limit)
  unfolding assert_bucket_allowed
  bucket_iff a = assert_found_iff (get key buckets) a

-- Each limit of a bucket lets something through.
abbrev pub HasRoom : GuardOptions → Type 0
HasRoom o =
    (1 ≤ o.signup_per_source_limit)
    × (1 ≤ o.login_per_identifier_limit)
    × (1 ≤ o.login_per_source_limit)

abbrev pub counted : (now window_ms : ℕ) → Text → Dict Text Bucket → ℕ
counted now window_ms key buckets = count_in now window_ms (attempts_of (get key buckets))

module _ (lower fingerprint : Text → Text) where
  signup-answer :
      (source : Text) (now : ℕ) (g : AuthAbuseGuard)
      → let o = g.options in
        let all = prune now o.global_signup_window_ms g.state.global_signups in
        let key = source_key_hash lower fingerprint source in
        ((assert_and_record_signup_allowed lower fingerprint source now g).0 ≡ ok tt) ↔ (
          (length all < o.global_signup_limit)
          × ((assert_bucket_allowed g.state.source_signups key o.signup_per_source_limit
                o.signup_per_source_window_ms now source_signups).answer
              ≡ ok tt))
  unfolding assert_and_record_signup_allowed check_signup_source
  signup-answer source now g = (λ h. ground arith, λ h. ground arith)

  login-answer :
      (identifier source : Text) (now : ℕ) (g : AuthAbuseGuard)
      → let o = g.options in
        let all = prune now o.global_login_failure_window_ms g.state.global_login_failures in
        ((assert_login_allowed lower fingerprint identifier source now g).0 ≡ ok tt) ↔ (
          (length all < o.global_login_failure_limit)
          × ((assert_bucket_allowed g.state.login_failures
                (identifier_key lower fingerprint identifier)
                o.login_per_identifier_limit
                o.login_per_identifier_window_ms
                now
                identifier_logins).answer
              ≡ ok tt)
          × ((assert_bucket_allowed g.state.source_login_failures
                (source_key_hash lower fingerprint source)
                o.login_per_source_limit
                o.login_per_source_window_ms
                now
                source_logins).answer
              ≡ ok tt))
  unfolding assert_login_allowed check_identifier check_source queue_persist
  login-answer identifier source now g = (λ h. ground arith, λ h. ground arith)

  -- A sign-up is let through exactly if, within their windows, there were fewer sign-ups than the
  -- limit for all sources and fewer from this source than the limit for one. A sign-in may be tried
  -- exactly if there were fewer failures than the limit for all, than the limit for this
  -- identifier and than the limit for this source. The recorded instants are in order, and the limits
  -- for one source or identifier are not zero.
  pub allowed_iff :
      (identifier source : Text) (now : ℕ) (g : AuthAbuseGuard)
      → HasRoom g.options
      → let s = g.state in
        let source_key = source_key_hash lower fingerprint source in
        let id_key = identifier_key lower fingerprint identifier in
        IsAscending s.global_signups
        → IsAscending s.global_login_failures
        → IsAscending (attempts_of (get source_key s.source_signups))
        → IsAscending (attempts_of (get id_key s.login_failures))
        → IsAscending (attempts_of (get source_key s.source_login_failures))
        → let o = g.options in
          (((assert_and_record_signup_allowed lower fingerprint source now g).0 ≡ ok tt) ↔ (
            (count_in now o.global_signup_window_ms s.global_signups < o.global_signup_limit)
            × (counted now o.signup_per_source_window_ms source_key s.source_signups
                < o.signup_per_source_limit)))
          × (((assert_login_allowed lower fingerprint identifier source now g).0 ≡ ok tt) ↔ (
              (count_in now o.global_login_failure_window_ms s.global_login_failures
                < o.global_login_failure_limit)
              × (counted now o.login_per_identifier_window_ms id_key s.login_failures
                  < o.login_per_identifier_limit)
              × (counted now o.login_per_source_window_ms source_key s.source_login_failures
                  < o.login_per_source_limit)))
  allowed_iff identifier source now g (r1, r2, r3) a1 a2 b1 b2 b3 =
      let s = g.state in
      let o = g.options in
      let source_key = source_key_hash lower fingerprint source in
      let id_key = identifier_key lower fingerprint identifier in
      let (sf, sb) =
        bucket_iff s.source_signups source_key o.signup_per_source_limit
          o.signup_per_source_window_ms now source_signups r1 b1 in
      let (jf, jb) =
        bucket_iff s.login_failures id_key o.login_per_identifier_limit
          o.login_per_identifier_window_ms now identifier_logins r2 b2 in
      let (lf, lb) =
        bucket_iff s.source_login_failures source_key o.login_per_source_limit
          o.login_per_source_window_ms now source_logins r3 b3 in
      let (af, ab) =
        rw (prune_lem now o.global_signup_window_ms s.global_signups a1) at
          (signup-answer source now g) in
      let (cf, cb) =
        rw (prune_lem now o.global_login_failure_window_ms s.global_login_failures a2) at
          (login-answer identifier source now g) in
      (
        (λ h. let (x, y) = af h in (x, sf y), λ h. ab (h.0, sb h.1)),
        (
          λ h. let (x, y, z) = cf h in (x, jf y, lf z),
          λ h. let (x, y, z) = h in cb (x, jb y, lb z),
        ),
      )
