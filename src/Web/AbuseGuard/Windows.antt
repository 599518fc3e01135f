-- ===== src/Web/AbuseGuard/Windows.antt =====
-- src/web/authAbuseGuard.ts: what `prune` keeps of a list of instants in order.
use online_seller_control_hu.Common.{
  ℕ, ◌+◌, ◌≤◌, ◌<◌, ◌≡◌, refl, Bool, List, [], ◌∷◌, ◌++◌, if◌then◌else◌, filter, length, count_if,
  All, All-filter, All-append, ltb, arith,
}
use online_seller_control_hu.Web.AbuseGuard.{prune}

-- An instant that is less than a window ago.
abbrev pub in_window : (now window_ms : ℕ) → ℕ → Bool
in_window now window_ms t = ltb now (t + window_ms)

abbrev pub count_in : (now window_ms : ℕ) → List ℕ → ℕ
count_in now window_ms ts = count_if (in_window now window_ms) ts

abbrev pub IsAscending : List ℕ → Type 0
IsAscending [] = Unit
IsAscending (t ∷ ts) = All (λ u. t ≤ u) ts × IsAscending ts

abbrev pub IsUpTo : ℕ → List ℕ → Type 0
IsUpTo now ts = All (λ t. t ≤ now) ts

filter-later :
    (now window_ms t : ℕ) (ts : List ℕ)
    → now < t + window_ms
    → All (λ u. t ≤ u) ts
    → filter (in_window now window_ms) ts ≡ ts
filter-later now window_ms t [] h a = refl
filter-later now window_ms t (u ∷ ts) h a = ground (arith, filter-later now window_ms t ts h a.1)

-- The loop of `prune` stops at the first instant within the window; in order, the rest is too.
pub prune_lem :
    (now window_ms : ℕ) (ts : List ℕ)
    → IsAscending ts
    → prune now window_ms ts ≡ filter (in_window now window_ms) ts
unfolding prune
prune_lem now window_ms [] h = refl
prune_lem now window_ms (t ∷ ts) h =
    ground (arith, prune_lem now window_ms ts h.1, filter-later now window_ms t ts)

pub filter-IsAscending : (p : ℕ → Bool) (ts : List ℕ) → IsAscending ts → IsAscending (filter p ts)
filter-IsAscending p [] h = tt
filter-IsAscending p (t ∷ ts) h =
    ground (arith, filter-IsAscending p ts h.1, All-filter p (λ u. t ≤ u) ts h.0)

pub filter-IsUpTo :
    (now : ℕ) (p : ℕ → Bool) (ts : List ℕ) → IsUpTo now ts → IsUpTo now (filter p ts)
filter-IsUpTo now p ts h = All-filter p (λ t. t ≤ now) ts h

pub later-IsUpTo : (now now' : ℕ) (ts : List ℕ) → now ≤ now' → IsUpTo now ts → IsUpTo now' ts
later-IsUpTo now now' [] k h = tt
later-IsUpTo now now' (t ∷ ts) k h = (omega (arith, h.0), later-IsUpTo now now' ts k h.1)

pub append-IsUpTo : (now : ℕ) (ts : List ℕ) → IsUpTo now ts → IsUpTo now (ts ++ (now ∷ []))
append-IsUpTo now ts h = All-append (λ t. t ≤ now) ts (now ∷ []) h (omega arith, tt)

pub append-IsAscending :
    (now : ℕ) (ts : List ℕ) → IsAscending ts → IsUpTo now ts → IsAscending (ts ++ (now ∷ []))
append-IsAscending now [] h k = (tt, tt)
append-IsAscending now (t ∷ ts) h k =
    (All-append (λ u. t ≤ u) ts (now ∷ []) h.0 (k.0, tt), append-IsAscending now ts h.1 k.1)

module _ (window_ms : ℕ) where
  -- What has left the window does not count later.
  pub count_in-pruned :
      (now later : ℕ) (ts : List ℕ)
      → now ≤ later
      → count_in later window_ms (filter (in_window now window_ms) ts) ≡ count_in later window_ms ts
  count_in-pruned now later [] h = refl
  count_in-pruned now later (t ∷ ts) h = ground (arith, count_in-pruned now later ts h)

  pub count_in_later :
      (now later : ℕ) (ts : List ℕ)
      → now ≤ later
      → count_in later window_ms ts ≤ count_in now window_ms ts
  count_in_later now later [] h = omega arith
  count_in_later now later (t ∷ ts) h = ground (arith, count_in_later now later ts h)

  pub count_in-append :
      (now : ℕ) (ts : List ℕ) (u : ℕ)
      → count_in now window_ms (ts ++ (u ∷ []))
        ≡ count_in now window_ms ts + (if in_window now window_ms u then 1 else 0)
  count_in-append now [] u = ground arith
  count_in-append now (t ∷ ts) u = ground (arith, count_in-append now ts u)

  pub count_in-le : (now : ℕ) (ts : List ℕ) → count_in now window_ms ts ≤ length ts
  count_in-le now [] = omega arith
  count_in-le now (t ∷ ts) = ground (arith, count_in-le now ts)
