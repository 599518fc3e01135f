-- ===== src/Web/AbuseGuard/Signups.antt =====
-- src/web/authAbuseGuard.ts: how many sign-ups a guard lets through.
use mathlib.Core.List.{append-nil}
use online_seller_control_hu.Common.{
  ℕ, ◌≤◌, ◌<◌, ◌≡◌, refl, sym, ◌∙◌, ◌⊎◌, inl, inr, List, [], ◌∷◌, ◌++◌, Text, length, arith, Result,
  ok, throw, filter, length-append,
}
use online_seller_control_hu.Web.AbuseGuard.{AuthAbuseGuard, AuthRateLimitError, prune}
use online_seller_control_hu.Web.AbuseGuard.Guard.{
  queue_persist, check_identifier, check_source, assert_login_allowed, record_login_failure,
  record_login_success, check_signup_source, record_signup, assert_and_record_signup_allowed,
}
use online_seller_control_hu.Web.AbuseGuard.Windows.{
  in_window, count_in, IsAscending, IsUpTo, prune_lem, filter-IsAscending, filter-IsUpTo,
  later-IsUpTo, append-IsUpTo, append-IsAscending, count_in-pruned, count_in_later, count_in-append,
  count_in-le,
}

-- The calls of the web server.
pub data GuardRequest : Type 0 where
  login_request failure_request : (identifier source : Text) → GuardRequest
  success_request : (identifier : Text) → GuardRequest
  signup_request : (source : Text) → GuardRequest

abbrev pub granted : ℕ → Result AuthRateLimitError (Unit {0}) → List ℕ
granted now (ok _) = now ∷ []
granted now (throw _) = []

module _ (lower fingerprint : Text → Text) where
  -- The instants of the sign-ups that were let through, and the guard after a request.
  unfoldable pub serve : ℕ → GuardRequest → AuthAbuseGuard → List ℕ × AuthAbuseGuard
  serve now (login_request identifier source) g =
      ([], (assert_login_allowed lower fingerprint identifier source now g).1)
  serve now (failure_request identifier source) g =
      ([], record_login_failure lower fingerprint identifier source now g)
  serve now (success_request identifier) g =
      ([], record_login_success lower fingerprint identifier g)
  serve now (signup_request source) g =
      let (answer, g') = assert_and_record_signup_allowed lower fingerprint source now g in
      (granted now answer, g')

  unfoldable pub run : List (ℕ × GuardRequest) → AuthAbuseGuard → List ℕ × AuthAbuseGuard
  run [] g = ([], g)
  run ((now, request) ∷ requests) g =
      let (here, g') = serve now request g in
      let (later, g'') = run requests g' in (here ++ later, g'')

-- The clock does not go back.
abbrev pub IsTimed : ℕ → List (ℕ × GuardRequest) → Type 0
IsTimed clock [] = Unit
IsTimed clock ((now, _) ∷ requests) = (clock ≤ now) × IsTimed now requests

abbrev pub last_time : ℕ → List (ℕ × GuardRequest) → ℕ
last_time clock [] = clock
last_time clock ((now, _) ∷ requests) = last_time now requests

-- The parts of a guard that sign-ups are counted with are as before.
abbrev IsSameSignups : AuthAbuseGuard → AuthAbuseGuard → Type 0
IsSameSignups g h = (g.state.global_signups ≡ h.state.global_signups) × (g.options ≡ h.options)

module _ (lower fingerprint : Text → Text) where
  login-IsSameSignups :
      (identifier source : Text) (now : ℕ) (g : AuthAbuseGuard)
      → IsSameSignups (assert_login_allowed lower fingerprint identifier source now g).1 g
  unfolding assert_login_allowed check_identifier check_source queue_persist
  login-IsSameSignups identifier source now g = ground arith

  failure-IsSameSignups :
      (identifier source : Text) (now : ℕ) (g : AuthAbuseGuard)
      → IsSameSignups (record_login_failure lower fingerprint identifier source now g) g
  unfolding record_login_failure queue_persist
  failure-IsSameSignups identifier source now g = ground arith

  success-IsSameSignups :
      (identifier : Text) (g : AuthAbuseGuard)
      → IsSameSignups (record_login_success lower fingerprint identifier g) g
  unfolding record_login_success queue_persist
  success-IsSameSignups identifier g = ground arith

  -- A sign-up is refused, or it is added to the instants that are left after pruning.
  pub signup_cases :
      (source : Text) (now : ℕ) (g : AuthAbuseGuard)
      → let r = assert_and_record_signup_allowed lower fingerprint source now g in
        let all = prune now g.options.global_signup_window_ms g.state.global_signups in
        (r.1.options ≡ g.options)
        × (((granted now r.0 ≡ []) × (r.1.state.global_signups ≡ all))
            ⊎ ((granted now r.0 ≡ (now ∷ []))
                × (r.1.state.global_signups ≡ all ++ (now ∷ []))
                × (length all < g.options.global_signup_limit)))
  unfolding assert_and_record_signup_allowed check_signup_source record_signup queue_persist
  signup_cases source now g = ground arith

-- The guard's list tells, from now on, how many of the past sign-ups are within the window.
pub record IsTracked (past : List ℕ) (clock : ℕ) (g : AuthAbuseGuard) : Type 0 where
  pub ascending : IsAscending g.state.global_signups
  pub up_to : IsUpTo clock g.state.global_signups
  pub counts :
      (later : ℕ)
      → clock ≤ later
      → count_in later g.options.global_signup_window_ms past
        ≡ count_in later g.options.global_signup_window_ms g.state.global_signups
  pub bounded :
      count_in clock g.options.global_signup_window_ms g.state.global_signups
      ≤ g.options.global_signup_limit

module _ (past : List ℕ) (clock now : ℕ) (g : AuthAbuseGuard) (k : clock ≤ now)
    (i : IsTracked past clock g) where
  abbrev window : ℕ
  window = g.options.global_signup_window_ms

  abbrev kept : List ℕ
  kept = filter (in_window now window) g.state.global_signups

  abbrev replaced : List ℕ → AuthAbuseGuard
  replaced ts = record g { state = record g.state { global_signups = ts } }

  waited : IsTracked past now g
  waited = record {
    ascending = i.ascending;
    up_to = later-IsUpTo clock now g.state.global_signups k i.up_to;
    counts = λ later h. i.counts later (omega arith);
    bounded = omega (arith, i.bounded, count_in_later window clock now g.state.global_signups k);
  }

  refused : IsTracked past now (replaced kept)
  refused = record {
    ascending = filter-IsAscending (in_window now window) g.state.global_signups i.ascending;
    up_to = filter-IsUpTo now (in_window now window) g.state.global_signups waited.up_to;
    counts = λ later h.
        i.counts later (omega arith)
        ∙ sym (count_in-pruned window now later g.state.global_signups h);
    bounded =
        rw (count_in-pruned window now now g.state.global_signups (omega arith)) waited.bounded;
  }

  added :
      length kept < g.options.global_signup_limit
      → IsTracked (past ++ (now ∷ [])) now (replaced (kept ++ (now ∷ [])))
  added room = record {
    ascending = append-IsAscending now kept refused.ascending refused.up_to;
    up_to = append-IsUpTo now kept refused.up_to;
    counts = λ later h.
        rw
          (
            count_in-append window later past now,
            count_in-append window later kept now,
            refused.counts later h,
          )
          refl;
    bounded =
        omega
          (arith, room, count_in-le window now (kept ++ (now ∷ [])), length-append kept (now ∷ []));
  }

IsTracked_cong :
    (past : List ℕ) (clock : ℕ) (g h : AuthAbuseGuard)
    → g.options ≡ h.options
    → g.state.global_signups ≡ h.state.global_signups
    → IsTracked past clock h
    → IsTracked past clock g
IsTracked_cong past clock g h o e i = record {
  ascending = rw e i.ascending;
  up_to = rw e i.up_to;
  counts = λ later k. rw (o, e) (i.counts later k);
  bounded = rw (o, e) i.bounded;
}

module _ (lower fingerprint : Text → Text) where
  pub serve-options :
      (now : ℕ) (request : GuardRequest) (g : AuthAbuseGuard)
      → (serve lower fingerprint now request g).1.options ≡ g.options
  unfolding serve
  serve-options now (login_request identifier source) g =
      (login-IsSameSignups lower fingerprint identifier source now g).1
  serve-options now (failure_request identifier source) g =
      (failure-IsSameSignups lower fingerprint identifier source now g).1
  serve-options now (success_request identifier) g =
      (success-IsSameSignups lower fingerprint identifier g).1
  serve-options now (signup_request source) g = (signup_cases lower fingerprint source now g).0

  pub serve-IsTracked :
      (past : List ℕ) (clock now : ℕ) (request : GuardRequest) (g : AuthAbuseGuard)
      → clock ≤ now
      → IsTracked past clock g
      → IsTracked
          (past ++ (serve lower fingerprint now request g).0)
          now
          (serve lower fingerprint now request g).1
  unfolding serve
  serve-IsTracked past clock now (login_request identifier source) g k i =
      let (e, o) = login-IsSameSignups lower fingerprint identifier source now g in
      rw (append-nil past) (IsTracked_cong past now _ g o e (waited past clock now g k i))
  serve-IsTracked past clock now (failure_request identifier source) g k i =
      let (e, o) = failure-IsSameSignups lower fingerprint identifier source now g in
      rw (append-nil past) (IsTracked_cong past now _ g o e (waited past clock now g k i))
  serve-IsTracked past clock now (success_request identifier) g k i =
      let (e, o) = success-IsSameSignups lower fingerprint identifier g in
      rw (append-nil past) (IsTracked_cong past now _ g o e (waited past clock now g k i))
  serve-IsTracked past clock now (signup_request source) g k i =
      let (o, cases) = signup_cases lower fingerprint source now g in
      let pruned =
        prune_lem now g.options.global_signup_window_ms g.state.global_signups i.ascending in
      elim cases [
        | inl (none_granted, e) ↦
            rw (none_granted, append-nil past)
              (IsTracked_cong past now _ _ o (e ∙ pruned) (refused past clock now g k i))
        | inr (one_granted, e, room) ↦ rw one_granted (
            IsTracked_cong (past ++ (now ∷ [])) now _ _ o (rw pruned at e)
              (added past clock now g k i (rw pruned at room)))
      ]
