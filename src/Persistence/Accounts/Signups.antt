-- ===== src/Persistence/Accounts/Signups.antt =====
-- src/persistence/accountStore.ts: no mutation makes a decided account wait for a decision again.
use online_seller_control_hu.Common.{
  ℕ, ◌≡◌, ◌≢◌, refl, ◌⊎◌, inl, inr, Bool, true, false, Option, none, some, Text, text_eq,
  if◌then◌else◌, arith, Bool-cases, ◌==◌, eq_of_==, ok,
}
use online_seller_control_hu.Common.Dicts.{get, set, get-set}
use online_seller_control_hu.Persistence.Files.{Mutation}
use online_seller_control_hu.Persistence.Accounts.{
  Env, SellerAccount, Session, StoreData, AccountIdentity, SignupRequest, pending, active, rejected,
  is_pending, free, owner, pro, admin,
}
use online_seller_control_hu.Persistence.Accounts.SignIns.{login_found, logout_found}
use online_seller_control_hu.Persistence.Accounts.Calls.{
  AccountCall, RegisterInput, register_found, signup_found, is_taken, new_account, or_else,
  LoginReply,
}
use online_seller_control_hu.Persistence.Accounts.Administration.{
  approve_found, reject_found, bootstrap_found, admin_email,
}

-- An account that is there and waits for no decision.
abbrev pub IsDecided : Text → StoreData → Type 0
IsDecided id d = (a : SellerAccount) × (get id d.accounts ≡ some a) × (is_pending a.status ≡ false)

pub set-IsDecided :
    (id k : Text) (b : SellerAccount) (d d' : StoreData)
    → d'.accounts ≡ set k b d.accounts
    → (k ≢ id) ⊎ (is_pending b.status ≡ false)
    → IsDecided id d
    → IsDecided id d'
set-IsDecided id k b d d' e c (a, found, decided) = elim (Bool-cases (k == id)) [
  | inl same ↦ elim c [
    | inl ne ↦ absurd (ne (eq_of_== k id same))
    | inr new ↦ (b, rw (e, get-set k id b d.accounts, same) refl, new)
  ]
  | inr other ↦ (a, rw (e, get-set k id b d.accounts, other) found, decided)
]

pub kept-IsDecided :
    (id : Text) (d d' : StoreData) → d'.accounts ≡ d.accounts → IsDecided id d → IsDecided id d'
kept-IsDecided id d d' e (a, found, decided) = (a, rw e found, decided)

-- What each mutation leaves of a decided account; new accounts have other identifiers.
module _ (id : Text) (env : Env) (call : AccountCall) (d : StoreData)
    (decided : IsDecided id d) where
  pub register-IsDecided :
      (input : RegisterInput) (email : Text) (username : Option Text) (found : Option SellerAccount)
      (m : Mutation StoreData AccountIdentity)
      → call.user_id ≢ id
      → register_found env call input email username d found ≡ ok m
      → IsDecided id m.rows
  unfolding register_found
  register-IsDecided input email username (some _) m ne e = cc
  register-IsDecided input email username none m ne e =
      elim (Bool-cases (is_taken env username d)) [
        | inl t ↦ ground (arith, t, e)
        | inr t ↦
            set-IsDecided id call.user_id
              (new_account call email username (or_else free input.plan) (or_else owner input.role)
                (or_else active input.status))
              d m.rows (ground (arith, t, e)) (inl ne) decided
      ]

  pub signup-IsDecided :
      (email : Text) (found : Option SellerAccount) (m : Mutation StoreData SignupRequest)
      → call.user_id ≢ id
      → signup_found call email d found ≡ ok m
      → IsDecided id m.rows
  unfolding signup_found
  signup-IsDecided email (some _) m ne e = cc
  signup-IsDecided email none m ne e =
      set-IsDecided id call.user_id (new_account call email none free owner pending) d m.rows
        (ground (arith, e)) (inl ne) decided

  pub login-IsDecided :
      (ttl_ms : ℕ) (password : Text) (found : Option SellerAccount)
      (m : Mutation StoreData LoginReply)
      → login_found env call ttl_ms password d found ≡ ok m
      → IsDecided id m.rows
  unfolding login_found
  login-IsDecided ttl_ms password none m e = cc
  login-IsDecided ttl_ms password (some a) m e =
      kept-IsDecided id d m.rows (ground (arith, e)) decided

  pub logout-IsDecided :
      (found : Option Session) (m : Mutation StoreData Bool)
      → logout_found d found ≡ ok m
      → IsDecided id m.rows
  unfolding logout_found
  logout-IsDecided none m e = kept-IsDecided id d m.rows (ground (arith, e)) decided
  logout-IsDecided (some s) m e = kept-IsDecided id d m.rows (ground (arith, e)) decided

  pub approve-IsDecided :
      (k : Text) (found : Option SellerAccount) (m : Mutation StoreData SignupRequest)
      → approve_found call k d found ≡ ok m
      → IsDecided id m.rows
  unfolding approve_found
  approve-IsDecided k none m e = cc
  approve-IsDecided k (some a) m e =
      set-IsDecided id k (record a { status = active; enabled = true; updated_at = call.now }) d
        m.rows (ground (arith, e)) (inr refl) decided

  pub reject-IsDecided :
      (k : Text) (found : Option SellerAccount) (m : Mutation StoreData SignupRequest)
      → reject_found call k d found ≡ ok m
      → IsDecided id m.rows
  unfolding reject_found
  reject-IsDecided k none m e = cc
  reject-IsDecided k (some a) m e =
      set-IsDecided id k (record a { status = rejected; updated_at = call.now }) d m.rows
        (ground (arith, e)) (inr refl) decided

  pub bootstrap-IsDecided :
      (username password : Text) (found : Option SellerAccount)
      (m : Mutation StoreData AccountIdentity)
      → call.user_id ≢ id
      → bootstrap_found env call username password d found ≡ ok m
      → IsDecided id m.rows
  unfolding bootstrap_found
  bootstrap-IsDecided username password none m ne e =
      set-IsDecided id call.user_id
        (new_account call (admin_email username) (some username) pro admin active) d m.rows
        (ground (arith, e)) (inl ne) decided
  bootstrap-IsDecided username password (some a) m ne e =
      set-IsDecided id a.user_id
        (record a {
          password_hash =
              if env.compare password a.password_hash then a.password_hash else call.password_hash;
          role = admin;
          plan = pro;
          status = active;
          enabled = true;
          updated_at = call.now;
        })
        d m.rows (ground (arith, e)) (inr refl) decided
