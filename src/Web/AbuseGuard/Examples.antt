-- ===== src/Web/AbuseGuard/Examples.antt =====
-- src/web/authAbuseGuard.ts with small limits: two sign-ups for all sources within 100 milliseconds.
use online_seller_control_hu.Common.{
  ℕ, ◌≡◌, ◌≤◌, ◌<◌, ◌↔◌, refl, none, true, [], ◌∷◌, List, Text, text_eq, ok, codes, running, arith,
  length, map, lower_unit,
}
use online_seller_control_hu.Common.Dicts.{Dict, get, HasUniqueKeys}
use online_seller_control_hu.Persistence.Files.{Disk, missing, holds}
use online_seller_control_hu.Web.AbuseGuard.{
  AuthAbuseGuard, GuardOptions, PersistedState, Bucket, empty_state, limited, prune, oldest_from,
  evict_found, evict_from, evict_oldest, assert_attempts, assert_found, assert_bucket_allowed,
  record_bucket,
}
use online_seller_control_hu.Web.AbuseGuard.Guard.{
  queue_persist, check_identifier, check_source, assert_login_allowed, record_login_failure,
  record_login_success, check_signup_source, record_signup, assert_and_record_signup_allowed,
  source_key_hash, identifier_key, load,
}
use online_seller_control_hu.Web.AbuseGuard.Windows.{count_in}
use online_seller_control_hu.Web.AbuseGuard.Signups.{
  GuardRequest, signup_request, failure_request, serve, run,
}
use online_seller_control_hu.Web.AbuseGuard.Limits.{signups_bounded, allowed_iff, counted}
use online_seller_control_hu.Web.AbuseGuard.Eviction.{IsEvicted, evict_oldest-IsEvicted}
use online_seller_control_hu.Web.AbuseGuard.Restart.{restart_counts}

program : Unit {0}
unfolding running limited prune oldest_from evict_found evict_from evict_oldest assert_attempts
    assert_found assert_bucket_allowed record_bucket queue_persist check_identifier check_source
    assert_login_allowed record_login_failure record_login_success check_signup_source record_signup
    assert_and_record_signup_allowed serve run
program = tt

abbrev options : GuardOptions
options = record {
  login_per_identifier_limit = 2;
  login_per_identifier_window_ms = 100;
  login_per_source_limit = 3;
  login_per_source_window_ms = 100;
  global_login_failure_limit = 4;
  global_login_failure_window_ms = 100;
  signup_per_source_limit = 1;
  signup_per_source_window_ms = 200;
  global_signup_limit = 2;
  global_signup_window_ms = 100;
  max_tracked_identifiers = 2;
  max_tracked_sources = 2;
}

abbrev lower : Text → Text
lower = map lower_unit

-- A stand-in for the hash.
abbrev fingerprint : Text → Text
fingerprint s = b'f' ∷ s

abbrev fresh : AuthAbuseGuard
fresh = record {
  options = options;
  persistent = true;
  state = empty_state;
  queued = [];
  disk = record { primary = missing; backup = missing };
}

abbrev requests : List (ℕ × GuardRequest)
requests =
    (10, signup_request (codes "A"))
    ∷ (20, signup_request (codes " a "))
    ∷ (30, signup_request (codes "b"))
    ∷ (40, signup_request (codes "c"))
    ∷ (111, signup_request (codes "d"))
    ∷ (120, failure_request (codes "me") (codes "a"))
    ∷ []

let_through : (run lower fingerprint requests fresh).0 ≡ (10 ∷ 30 ∷ 111 ∷ [])
unfolding program
let_through = refl

signups_bounded_example : count_in 125 100 (run lower fingerprint requests fresh).0 ≤ 2
signups_bounded_example =
    signups_bounded lower fingerprint requests fresh 125 refl
      (omega arith, (omega arith, (omega arith, (omega arith, (omega arith, (omega arith, tt))))))
      (omega arith)

abbrev busy : PersistedState
busy = record {
  login_failures = (codes "fme", record { attempts = 20 ∷ 30 ∷ []; last_seen_at = 30 }) ∷ [];
  source_login_failures = [];
  source_signups = (codes "fa", record { attempts = 10 ∷ []; last_seen_at = 10 }) ∷ [];
  global_login_failures = 20 ∷ 30 ∷ [];
  global_signups = 10 ∷ [];
}

abbrev guard : AuthAbuseGuard
guard = record fresh { state = busy }

allowed_iff_example :
    (((assert_and_record_signup_allowed lower fingerprint (codes "a") 125 guard).0 ≡ ok tt) ↔ (
      (count_in 125 100 (10 ∷ []) < 2)
      × (counted 125 200 (source_key_hash lower fingerprint (codes "a")) busy.source_signups < 1)))
    × (((assert_login_allowed lower fingerprint (codes "Me") (codes "a") 125 guard).0 ≡ ok tt) ↔ (
        (count_in 125 100 (20 ∷ 30 ∷ []) < 4)
        × (counted 125 100 (identifier_key lower fingerprint (codes "Me")) busy.login_failures < 2)
        × (counted 125 100
              (source_key_hash lower fingerprint (codes "a"))
              busy.source_login_failures
            < 3)))
unfolding program
allowed_iff_example =
    allowed_iff lower fingerprint (codes "Me") (codes "a") 125 guard
      (omega arith, omega arith, omega arith) (tt, tt) (omega arith) (tt, tt) (omega arith) tt

abbrev buckets : Dict Text Bucket
buckets =
    (codes "f1", record { attempts = 7 ∷ []; last_seen_at = 7 })
    ∷ (codes "f2", record { attempts = 5 ∷ []; last_seen_at = 5 })
    ∷ (codes "f3", record { attempts = 9 ∷ []; last_seen_at = 9 })
    ∷ []

evicted : get (codes "f2") (evict_oldest buckets 2) ≡ none
unfolding program
evicted = refl

unique_keys : HasUniqueKeys buckets
unfolding program
unique_keys = (refl, (refl, (refl, tt)))

evict_oldest-IsEvicted_example :
    (length (evict_oldest buckets 2) ≤ 2) × IsEvicted buckets (evict_oldest buckets 2)
evict_oldest-IsEvicted_example =
    evict_oldest-IsEvicted buckets 2 unique_keys (refl, (refl, (refl, tt)))

abbrev saved : Disk PersistedState
saved = record { primary = holds busy; backup = missing }

restart_counts_example :
    (g : AuthAbuseGuard) × (load options 125 saved ≡ ok g)
    × (counted 126 100 (codes "fme") g.state.login_failures
        ≡ counted 126 100 (codes "fme") busy.login_failures)
    × (counted 126 100 (codes "fme") g.state.source_login_failures
        ≡ counted 126 100 (codes "fme") busy.source_login_failures)
    × (counted 126 200 (codes "fme") g.state.source_signups
        ≡ counted 126 200 (codes "fme") busy.source_signups)
    × (count_in 126 100 g.state.global_login_failures ≡ count_in 126 100 busy.global_login_failures)
    × (count_in 126 100 g.state.global_signups ≡ count_in 126 100 busy.global_signups)
restart_counts_example =
    restart_counts options 125 126 (codes "fme") saved busy refl
      (record {
        identifiers = ((refl, tt), omega arith);
        sources = (tt, omega arith);
        signups = ((refl, tt), omega arith);
      })
      (omega arith)
