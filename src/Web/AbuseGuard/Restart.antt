-- ===== src/Web/AbuseGuard/Restart.antt =====
-- src/web/authAbuseGuard.ts: a restart forgets no attempt that still counts.
use online_seller_control_hu.Common.{
  ℕ, ◌+◌, ◌-◌, ◌≤◌, ◌≡◌, refl, sym, ◌∙◌, subst, inl, inr, true, false, none, List, [], ◌∷◌, Text,
  text_eq, length, arith, Bool-cases, includes, ◌==◌, is_empty, ==_refl, eq_of_==, filter, ok,
}
use online_seller_control_hu.Common.Dicts.{
  Dict, get, set, keys, HasUniqueKeys, get-set, length-set-le,
}
use online_seller_control_hu.Persistence.Files.{Disk, holds}
use online_seller_control_hu.Web.AbuseGuard.{
  Bucket, GuardOptions, PersistedState, AuthAbuseGuard, evict_oldest, evict_from,
}
use online_seller_control_hu.Web.AbuseGuard.Guard.{
  restore_into, restore_buckets, restore, load, load_primary,
}
use online_seller_control_hu.Web.AbuseGuard.Windows.{in_window, count_in, count_in-pruned}
use online_seller_control_hu.Web.AbuseGuard.Limits.{counted}

evict_oldest_small :
    (buckets : Dict Text Bucket) (max_size : ℕ)
    → length buckets ≤ max_size
    → evict_oldest buckets max_size ≡ buckets
unfolding evict_oldest evict_from
evict_oldest_small buckets max_size h =
    let zero_rounds : length buckets - max_size ≡ 0 = omega (arith, h) in rw zero_rounds refl

module _ (now window_ms : ℕ) where
  length-restore_into :
      (source target : Dict Text Bucket)
      → length (restore_into now window_ms source target) ≤ length source + length target
  unfolding restore_into
  length-restore_into [] target = omega arith
  length-restore_into ((key, b) ∷ source) target =
      let attempts = filter (in_window now window_ms) b.attempts in
      let bucket : Bucket = record { attempts = attempts; last_seen_at = b.last_seen_at } in
      ground (
        arith,
        length-restore_into source target,
        length-restore_into source (set key bucket target),
        length-set-le key bucket target,
      )

  module _ (later : ℕ) (k : now ≤ later) (key : Text) where
    -- A key that is no more in the source has its bucket already.
    get-restore_into :
        (source target : Dict Text Bucket)
        → includes key (keys source) ≡ false
        → get key (restore_into now window_ms source target) ≡ get key target
    unfolding restore_into
    get-restore_into [] target h = refl
    get-restore_into ((j, b) ∷ source) target h =
        let attempts = filter (in_window now window_ms) b.attempts in
        let bucket : Bucket = record { attempts = attempts; last_seen_at = b.last_seen_at } in
        ground (
          arith,
          get-restore_into source target,
          get-restore_into source (set j bucket target),
          get-set j key bucket target,
        )

    empty_count :
        (attempts : List ℕ) → is_empty attempts ≡ true → count_in later window_ms attempts ≡ 0
    empty_count [] h = refl
    empty_count (t ∷ ts) h = cc

    -- The bucket of the key itself.
    counted-bucket :
        (b : Bucket) (source target : Dict Text Bucket)
        → includes key (keys source) ≡ false
        → get key target ≡ none
        → counted later window_ms key (restore_into now window_ms ((key, b) ∷ source) target)
          ≡ count_in later window_ms b.attempts
    unfolding restore_into
    counted-bucket b source target new h =
        let attempts = filter (in_window now window_ms) b.attempts in
        let bucket : Bucket = record { attempts = attempts; last_seen_at = b.last_seen_at } in
        let pruned = count_in-pruned window_ms now later b.attempts k in
        elim (Bool-cases (is_empty attempts)) [
          | inl e ↦
              rw (e, get-restore_into source target new, h) (sym (empty_count attempts e) ∙ pruned)
          | inr e ↦
              rw
                (
                  e,
                  get-restore_into source (set key bucket target) new,
                  get-set key key bucket target,
                  ==_refl key,
                )
                pruned
        ]

    counted-restore_into :
        (source target : Dict Text Bucket)
        → HasUniqueKeys source
        → get key target ≡ none
        → counted later window_ms key (restore_into now window_ms source target)
          ≡ counted later window_ms key source
    unfolding restore_into get
    counted-restore_into [] target u h = rw h refl
    counted-restore_into ((j, b) ∷ source) target u h =
        let attempts = filter (in_window now window_ms) b.attempts in
        let bucket : Bucket = record { attempts = attempts; last_seen_at = b.last_seen_at } in
        elim (Bool-cases (j == key)) [
          | inl e ↦
              let same = eq_of_== j key e in
              rw (e, same)
                (counted-bucket b source target
                  (subst (λ x. includes x (keys source) ≡ false) same u.0) h)
          | inr e ↦
              let kept : get key (set j bucket target) ≡ none =
                rw (get-set j key bucket target, e) h in
              let without = counted-restore_into source target u.1 h in
              let with_it = counted-restore_into source (set j bucket target) u.1 kept in
              elim (Bool-cases (is_empty attempts)) [
                | inl gone ↦ rw (e, gone) without
                | inr stays ↦ rw (e, stays) with_it
              ]
        ]

    pub counted-restore_buckets :
        (source : Dict Text Bucket) (max_size : ℕ)
        → HasUniqueKeys source
        → length source ≤ max_size
        → counted later window_ms key (restore_buckets now window_ms source max_size)
          ≡ counted later window_ms key source
    unfolding get
    counted-restore_buckets source max_size u small =
        let bound = length-restore_into source [] in
        rw
          (evict_oldest_small (restore_into now window_ms source []) max_size
            (omega (arith, bound, small)))
          (counted-restore_into source [] u refl)

-- The maps of a state have different keys, and no more of them than the options allow.
pub record IsWithin (o : GuardOptions) (s : PersistedState) : Type 0 where
  pub identifiers :
      HasUniqueKeys s.login_failures × (length s.login_failures ≤ o.max_tracked_identifiers)
  pub sources :
      HasUniqueKeys s.source_login_failures
      × (length s.source_login_failures ≤ o.max_tracked_sources)
  pub signups : HasUniqueKeys s.source_signups × (length s.source_signups ≤ o.max_tracked_sources)

-- A restart from a saved state counts, from then on, as many sign-in failures of every identifier,
-- of every source and of all sources within their windows as the state that was saved, and as many
-- sign-ups.
pub restart_counts :
    (o : GuardOptions) (now later : ℕ) (key : Text) (disk : Disk PersistedState)
    (s : PersistedState)
    → disk.primary ≡ holds s
    → IsWithin o s
    → now ≤ later
    → (g : AuthAbuseGuard) × (load o now disk ≡ ok g)
      × (counted later o.login_per_identifier_window_ms key g.state.login_failures
          ≡ counted later o.login_per_identifier_window_ms key s.login_failures)
      × (counted later o.login_per_source_window_ms key g.state.source_login_failures
          ≡ counted later o.login_per_source_window_ms key s.source_login_failures)
      × (counted later o.signup_per_source_window_ms key g.state.source_signups
          ≡ counted later o.signup_per_source_window_ms key s.source_signups)
      × (count_in later o.global_login_failure_window_ms g.state.global_login_failures
          ≡ count_in later o.global_login_failure_window_ms s.global_login_failures)
      × (count_in later o.global_signup_window_ms g.state.global_signups
          ≡ count_in later o.global_signup_window_ms s.global_signups)
unfolding load_primary restore
restart_counts o now later key disk s saved w k = (
  record { options = o; persistent = true; state = restore o now s; queued = []; disk = disk },
  rw saved refl,
  counted-restore_buckets now o.login_per_identifier_window_ms later k key s.login_failures
      o.max_tracked_identifiers w.identifiers.0 w.identifiers.1,
  counted-restore_buckets now o.login_per_source_window_ms later k key s.source_login_failures
      o.max_tracked_sources w.sources.0 w.sources.1,
  counted-restore_buckets now o.signup_per_source_window_ms later k key s.source_signups
      o.max_tracked_sources w.signups.0 w.signups.1,
  count_in-pruned o.global_login_failure_window_ms now later s.global_login_failures k,
  count_in-pruned o.global_signup_window_ms now later s.global_signups k,
)
