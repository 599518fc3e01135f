-- ===== src/Automation/Rules/Causes.antt =====
-- src/automation/rulePlanner.ts: what one proposal says of its rule and its signal.
use online_seller_control_hu.Common.{
  ◌<◌, none, some, Option, ap, eq_of_==, ==_refl, All-imp, ◌:+◌, nat_eq, ◌≤◌, ◌≡◌, refl, ◌⊎◌, inl,
  inr, true, false, List, [], ◌∷◌, text_eq, filter, All, arith, Bool-cases, is_some,
}
use online_seller_control_hu.Common.Sorting.{IsOrder, IsSorted}
use online_seller_control_hu.Core.Types.{Market, market_eq}
use online_seller_control_hu.Automation.Alerts.{stock_risk, alert_kind_eq, OperationsSignal}
use online_seller_control_hu.Automation.Rules.{
  AutomationRule, AutomationProposal, high, is_marketplace_mutation, automation_rules_schema,
  matches, signal_before, proposal_of, propose_first, or_market, is_rule_market,
}

-- Some member of a list has the property.
abbrev pub Any {ℓ} : {A : Type ℓ} → (A → Type 0) → List A → Type 0
Any P [] = ⊥
Any P (x ∷ xs) = P x ⊎ Any P xs

-- A proposal that would change a marketplace has to be confirmed, names the marketplace, and is
-- about stock at risk.
abbrev pub IsGuarded : AutomationProposal → Type 0
IsGuarded p =
    (is_marketplace_mutation p.action ≡ false)
    ⊎ ((p.requires_confirmation ≡ true)
        × (p.risk ≡ high)
        × (is_some p.market ≡ true)
        × (p.kind ≡ stock_risk))

-- A signal of which a rule speaks: of its kind, of its marketplace if it has one, and with a count
-- that reaches the thresholds of both.
pub record IsMatch (r : AutomationRule) (s : OperationsSignal) : Type 0 where
  pub kind : s.kind ≡ r.kind
  pub market : (r.market ≡ none) ⊎ ((m : Market) × (r.market ≡ some m) × (s.market ≡ some m))
  pub counted : 1 ≤ s.count
  pub over_threshold : s.threshold ≤ s.count
  pub over_minimum : r.min_count ≤ s.count

-- The signal is not in front of the one that is reported: it is earlier, or not larger.
abbrev pub IsBehind : OperationsSignal → OperationsSignal → Type 0
IsBehind x s =
    (x.detected_at.at < s.detected_at.at)
    ⊎ ((x.detected_at.at ≡ s.detected_at.at) × (x.count ≤ s.count))

-- What a proposal says of the rule and the signal that it comes from, one of those that were seen.
pub record IsCaused (signals : List OperationsSignal) (r : AutomationRule) (p : AutomationProposal)
    : Type 0 where
  pub signal : OperationsSignal
  pub seen : Any (λ x. x ≡ signal) signals
  pub match : IsMatch r signal
  pub first : All (λ x. (¬ IsMatch r x) ⊎ IsBehind x signal) signals
  pub enabled : r.enabled ≡ true
  pub proposal_id : p.proposal_id ≡ (r.id :+ signal.detected_at.text)
  pub rule_id : p.rule_id ≡ r.id
  pub action : p.action ≡ r.action
  pub kind : p.kind ≡ signal.kind
  pub market : p.market ≡ signal.market
  pub count : p.count ≡ signal.count
  pub detected_at : p.detected_at ≡ signal.detected_at
  pub threshold : (signal.threshold ≤ p.threshold) × (r.min_count ≤ p.threshold)
  pub reached : (1 ≤ p.count) × (p.threshold ≤ p.count)
  pub cooldown_minutes : p.cooldown_minutes ≡ r.cooldown_minutes

matches-IsGuarded :
    (r : AutomationRule) (s : OperationsSignal)
    → automation_rules_schema.faults r ≡ []
    → matches r s ≡ true
    → IsGuarded (proposal_of r s)
unfolding proposal_of
matches-IsGuarded r s sound h = elim (Bool-cases (is_marketplace_mutation r.action)) [
  | inr e ↦ inl e
  | inl e ↦
      let market : is_some (or_market r.market s.market) ≡ true = ground (arith, rw e at sound) in
      let kind : s.kind ≡ stock_risk = ground (arith, rw e at sound) in
      inr (e, rw e refl, market, kind)
]

pub All-filter_back :
    (r : AutomationRule) (P : OperationsSignal → Type 0) (ss : List OperationsSignal)
    → All P (filter (matches r) ss)
    → All (λ s. (matches r s ≡ false) ⊎ P s) ss
All-filter_back r P [] h = tt
All-filter_back r P (s ∷ ss) h = elim (Bool-cases (matches r s)) [
  | inr e ↦ (inl e, All-filter_back r P ss (rw e at h))
  | inl e ↦
      let both : P s × All P (filter (matches r) ss) = rw e at h in
      (inr both.0, All-filter_back r P ss both.1)
]

pub filter-matches :
    (r : AutomationRule) (ss : List OperationsSignal)
    → All (λ s. (matches r s ≡ true) × Any (λ x. x ≡ s) ss) (filter (matches r) ss)
filter-matches r [] = tt
filter-matches r (s ∷ ss) =
    let rest =
      All-imp _ (λ x. (matches r x ≡ true) × Any (λ y. y ≡ x) (s ∷ ss)) (filter (matches r) ss)
        (λ x h. (h.0, inr h.1)) (filter-matches r ss) in
    elim (Bool-cases (matches r s)) [ inr e ↦ rw e rest | inl e ↦ rw e ((e, inl refl), rest) ]

pub signal_before-IsOrder : IsOrder signal_before
signal_before-IsOrder = record { total = λ a b h. ground arith; trans = λ a b c h k. ground arith }

before-IsBehind : (s x : OperationsSignal) → signal_before s x ≡ true → IsBehind x s
before-IsBehind s x h = ground arith

All-behind :
    (s : OperationsSignal) (xs : List OperationsSignal)
    → All (λ x. signal_before s x ≡ true) xs
    → All (λ x. IsBehind x s) xs
All-behind s xs h =
    All-imp (λ x. signal_before s x ≡ true) (λ x. IsBehind x s) xs (before-IsBehind s) h

market-cases :
    (o k : Option Market)
    → is_rule_market o k ≡ true
    → (o ≡ none) ⊎ ((m : Market) × (o ≡ some m) × (k ≡ some m))
market-cases none k h = inl refl
market-cases (some m) none h = cc
market-cases (some m) (some k) h = inr (m, refl, ap some (eq_of_== k m h))

matches-IsMatch : (r : AutomationRule) (s : OperationsSignal) → matches r s ≡ true → IsMatch r s
matches-IsMatch r s h = record {
  kind = ground (arith, eq_of_== s.kind r.kind);
  market = market-cases r.market s.market (ground arith);
  counted = ground arith;
  over_threshold = ground arith;
  over_minimum = ground arith;
}

market-reads :
    (o k : Option Market)
    → (o ≡ none) ⊎ ((m : Market) × (o ≡ some m) × (k ≡ some m))
    → is_rule_market o k ≡ true
market-reads o k (inl e) = rw e refl
market-reads o k (inr (m, e, f)) = rw (e, f) (==_refl m)

IsMatch-matches : (r : AutomationRule) (s : OperationsSignal) → IsMatch r s → matches r s ≡ true
IsMatch-matches r s m =
    rw (m.kind, ==_refl r.kind, market-reads r.market s.market m.market)
      (ground (arith, m.counted, m.over_threshold, m.over_minimum))

or_market-signal :
    (o k : Option Market)
    → (o ≡ none) ⊎ ((m : Market) × (o ≡ some m) × (k ≡ some m))
    → or_market o k ≡ k
or_market-signal o k (inl e) = rw e refl
or_market-signal o k (inr (m, e, f)) = rw (e, f) refl

-- What the first signal of a sorted list gives.
pub propose_first-lem :
    (signals : List OperationsSignal) (r : AutomationRule) (sorted : List OperationsSignal)
    → r.enabled ≡ true
    → automation_rules_schema.faults r ≡ []
    → IsSorted signal_before sorted
    → All (λ s. (matches r s ≡ true) × Any (λ x. x ≡ s) signals) sorted
    → ((s : OperationsSignal)
        → All (λ x. IsBehind x s) sorted
        → All (λ x. (matches r x ≡ false) ⊎ IsBehind x s) signals)
    → All (λ p. IsCaused signals r p × IsGuarded p) (propose_first r sorted)
unfolding propose_first proposal_of
propose_first-lem signals r [] on sound o m back = tt
propose_first-lem signals r (s ∷ ss) on sound o m back = (
  (
    record {
      signal = s;
      seen = m.0.1;
      match = matches-IsMatch r s m.0.0;
      first =
          All-imp _ _ signals
            (λ x c. elim c [
              | inl no_match ↦ inl (λ k. ground (arith, IsMatch-matches r x k, no_match))
              | inr behind ↦ inr behind
            ])
            (back s (inr (refl, omega arith), All-behind s ss o.0));
      enabled = on;
      proposal_id = refl;
      rule_id = refl;
      action = refl;
      kind = refl;
      market = or_market-signal r.market s.market (matches-IsMatch r s m.0.0).market;
      count = refl;
      detected_at = refl;
      threshold = (omega arith, omega arith);
      reached = ground (arith, m.0.0);
      cooldown_minutes = refl;
    },
    matches-IsGuarded r s sound m.0.0,
  ),
  tt,
)
