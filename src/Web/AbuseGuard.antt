-- ===== src/Web/AbuseGuard.antt =====
-- src/web/authAbuseGuard.ts: limits on sign-in failures and on sign-ups. The instant of a call is an
-- input; `lower` is `toLowerCase` and `fingerprint` the hexadecimal hash of node:crypto. A file of
-- the guard holds a state, is missing or is damaged. A snapshot that waits for its write is
-- kept as it was when it was queued, where the source's shares its buckets with the guard.
pub mod Guard
pub mod Windows
pub mod Signups
pub mod Limits
pub mod Eviction
pub mod Restart
mod Examples
use online_seller_control_hu.Common.{
  ℕ, ◌+◌, ◌-◌, ◌*◌, ◌/◌, max, zero, suc, ◌≡◌, Bool, true, false, ◌&&◌, not, Option, none, some,
  List, [], ◌∷◌, ◌++◌, ◌==◌, Text, text_eq, codes, if◌then◌else◌, Result, ok, throw, filter, length,
  is_empty, trim, take, ltb, leb,
}
use online_seller_control_hu.Common.Dicts.{Dict, get, set, delete, has}
use online_seller_control_hu.Persistence.Files.{
  Disk, Slot, missing, damaged, holds, Writes, persist_rows,
}

pub record Bucket : Type 0 where
  pub attempts : List ℕ
  pub last_seen_at : ℕ

pub record GuardOptions : Type 0 where
  pub login_per_identifier_limit : ℕ
  pub login_per_identifier_window_ms : ℕ
  pub login_per_source_limit : ℕ
  pub login_per_source_window_ms : ℕ
  pub global_login_failure_limit : ℕ
  pub global_login_failure_window_ms : ℕ
  pub signup_per_source_limit : ℕ
  pub signup_per_source_window_ms : ℕ
  pub global_signup_limit : ℕ
  pub global_signup_window_ms : ℕ
  pub max_tracked_identifiers : ℕ
  pub max_tracked_sources : ℕ

-- `DEFAULTS`
abbrev pub default_options : GuardOptions
default_options = record {
  login_per_identifier_limit = 8;
  login_per_identifier_window_ms = 900000;
  login_per_source_limit = 40;
  login_per_source_window_ms = 900000;
  global_login_failure_limit = 300;
  global_login_failure_window_ms = 600000;
  signup_per_source_limit = 10;
  signup_per_source_window_ms = 3600000;
  global_signup_limit = 60;
  global_signup_window_ms = 3600000;
  max_tracked_identifiers = 2000;
  max_tracked_sources = 2000;
}

pub record PersistedState : Type 0 where
  pub login_failures : Dict Text Bucket
  pub source_login_failures : Dict Text Bucket
  pub source_signups : Dict Text Bucket
  pub global_login_failures : List ℕ
  pub global_signups : List ℕ

abbrev pub empty_state : PersistedState
empty_state = record {
  login_failures = [];
  source_login_failures = [];
  source_signups = [];
  global_login_failures = [];
  global_signups = [];
}

-- `state` holds the maps and lists of the class; `queued` are the snapshots of `writeChain`.
pub record AuthAbuseGuard : Type 0 where
  pub options : GuardOptions
  pub persistent : Bool
  pub state : PersistedState
  pub queued : List PersistedState
  pub disk : Disk PersistedState

-- Each constructor stands for a message.
pub data LimitMessage : Type 0 where
  all_logins identifier_logins source_logins all_signups source_signups : LimitMessage

pub record AuthRateLimitError : Type 0 where
  pub message : LimitMessage
  pub retry_after_seconds : ℕ

abbrev pub Reply : Type 0
Reply = Result AuthRateLimitError (Unit {0}) × AuthAbuseGuard

abbrev pub first_or : ℕ → List ℕ → ℕ
first_or now [] = now
first_or now (t ∷ _) = t

-- `limited`, with the rounding up of the error's constructor.
unfoldable pub limited : LimitMessage → List ℕ → ℕ → ℕ → AuthRateLimitError
limited message attempts window_ms now =
    let retry_after_ms = max 1 (first_or now attempts + window_ms - now) in
    record { message = message; retry_after_seconds = max 1 ((retry_after_ms + 999) / 1000) }

-- The cutoff is `now - window_ms`, which may be negative.
unfoldable pub prune : (now window_ms : ℕ) → List ℕ → List ℕ
prune now window_ms [] = []
prune now window_ms (t ∷ ts) = if leb (t + window_ms) now then prune now window_ms ts else t ∷ ts

-- The loop over all buckets for the one that was seen least recently.
unfoldable pub oldest_from : Option (Text × ℕ) → Dict Text Bucket → Option (Text × ℕ)
oldest_from found [] = found
oldest_from none ((key, bucket) ∷ buckets) = oldest_from (some (key, bucket.last_seen_at)) buckets
oldest_from (some (k, oldest)) ((key, bucket) ∷ buckets) =
    oldest_from
      (if ltb bucket.last_seen_at oldest then some (key, bucket.last_seen_at) else some (k, oldest))
      buckets

-- An empty key ends the source's loop.
unfoldable pub evict_found : Option (Text × ℕ) → Dict Text Bucket → Dict Text Bucket
evict_found none buckets = buckets
evict_found (some (key, _)) buckets = if is_empty key then buckets else delete key buckets

unfoldable pub evict_from : ℕ → ℕ → Dict Text Bucket → Dict Text Bucket
evict_from zero max_size buckets = buckets
evict_from (suc n) max_size buckets =
    let rest = evict_from n max_size (evict_found (oldest_from none buckets) buckets) in
    if ltb max_size (length buckets) then rest else buckets

-- Each round deletes one bucket, so that as many rounds as there are buckets too many are enough.
unfoldable pub evict_oldest : Dict Text Bucket → ℕ → Dict Text Bucket
evict_oldest buckets max_size = evict_from (length buckets - max_size) max_size buckets

-- What `assertBucketAllowed` answers, the buckets after it, and whether it queued a write.
pub record BucketReply : Type 0 where
  pub answer : Result AuthRateLimitError (Unit {0})
  pub buckets : Dict Text Bucket
  pub queues : Bool

unfoldable pub assert_attempts :
    Dict Text Bucket → Text → (limit window_ms now : ℕ) → LimitMessage → List ℕ → BucketReply
assert_attempts buckets key limit window_ms now message [] = record {
  answer = ok tt;
  buckets = delete key buckets;
  queues = true;
}
assert_attempts buckets key limit window_ms now message (t ∷ ts) = record {
  answer =
      if leb limit (length (t ∷ ts)) then throw (limited message (t ∷ ts) window_ms now) else ok tt;
  buckets = set key (record { attempts = t ∷ ts; last_seen_at = now }) buckets;
  queues = false;
}

unfoldable pub assert_found :
    Dict Text Bucket → Text → (limit window_ms now : ℕ) → LimitMessage → Option Bucket → BucketReply
assert_found buckets key limit window_ms now message none = record {
  answer = ok tt;
  buckets = buckets;
  queues = false;
}
assert_found buckets key limit window_ms now message (some bucket) =
    assert_attempts buckets key limit window_ms now message (prune now window_ms bucket.attempts)

unfoldable pub assert_bucket_allowed :
    Dict Text Bucket → Text → (limit window_ms now : ℕ) → LimitMessage → BucketReply
assert_bucket_allowed buckets key limit window_ms now message =
    assert_found buckets key limit window_ms now message (get key buckets)

abbrev pub attempts_of : Option Bucket → List ℕ
attempts_of none = []
attempts_of (some bucket) = bucket.attempts

unfoldable pub record_bucket : Dict Text Bucket → Text → (window_ms now : ℕ) → Dict Text Bucket
record_bucket buckets key window_ms now =
    set key
      (record {
        attempts = prune now window_ms (attempts_of (get key buckets)) ++ (now ∷ []);
        last_seen_at = now;
      })
      buckets
