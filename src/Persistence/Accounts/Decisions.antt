-- ===== src/Persistence/Accounts/Decisions.antt =====
-- src/persistence/accountStore.ts: a sign-up request is decided once, and only active accounts are
-- recognised.
use online_seller_control_hu.Common.{
  ℕ, ◌≡◌, ◌≢◌, refl, sym, subst, inl, inr, Bool, true, false, Option, none, some, List, [], ◌∷◌,
  Text, text_eq, arith, ==_refl, Result, ok, throw, ◌>>=◌,
}
use online_seller_control_hu.Common.Dicts.{get, set, get-set}
use online_seller_control_hu.Persistence.Files.{Mutation, refused, enqueue_mutation, run_mutation}
use online_seller_control_hu.Persistence.Files.Sync.{enqueue_mutation_rows, enqueue_mutation_answer}
use online_seller_control_hu.Persistence.Accounts.{
  Env, SellerAccount, StoreData, AccountError, SignupRequest, active, rejected, signup_settled,
  normalize_email, normalize_identifier, normalize_username, validate_password, present_name,
}
use online_seller_control_hu.Persistence.Accounts.SignIns.{login, logout}
use online_seller_control_hu.Persistence.Accounts.Calls.{
  AccountCall, AccountStore, RegisterInput, Draft, Reply, settle, register, request_signup,
  normal_name,
}
use online_seller_control_hu.Persistence.Accounts.Administration.{
  approve_signup, approve_found, reject_signup, reject_found, bootstrap_admin,
}
use online_seller_control_hu.Persistence.Accounts.Signups.{
  IsDecided, register-IsDecided, signup-IsDecided, login-IsDecided, logout-IsDecided,
  approve-IsDecided, reject-IsDecided, bootstrap-IsDecided,
}

pub data AccountRequest : Type 0 where
  register_request : RegisterInput → AccountRequest
  signup_request login_request : (identifier password : Text) → AccountRequest
  logout_request : (token : Text) → AccountRequest
  approve_request reject_request : (user_id : Text) → AccountRequest
  bootstrap_request : (username password : Text) → AccountRequest

module _ (env : Env) (ttl_ms : ℕ) where
  unfoldable pub serve : AccountCall → AccountRequest → AccountStore → AccountStore
  serve call (register_request input) s = (register env call input s).1
  serve call (signup_request email password) s = (request_signup env call email password s).1
  serve call (login_request identifier password) s = (login env call ttl_ms identifier password s).1
  serve call (logout_request token) s = (logout env call token s).1
  serve call (approve_request id) s = (approve_signup call id s).1
  serve call (reject_request id) s = (reject_signup call id s).1
  serve call (bootstrap_request username password) s =
      (bootstrap_admin env call username password s).1

  unfoldable pub serve_all : List (AccountCall × AccountRequest) → AccountStore → AccountStore
  serve_all [] s = s
  serve_all ((call, request) ∷ requests) s = serve_all requests (serve call request s)

-- None of the calls makes a new account under this identifier.
abbrev pub IsNewTo : Text → List (AccountCall × AccountRequest) → Type 0
IsNewTo id [] = Unit
IsNewTo id ((call, _) ∷ requests) = (call.user_id ≢ id) × IsNewTo id requests

module _ {T : Type 0} (id : Text) where
  -- A mutation that keeps what is decided does so whether or not it is written.
  queue-IsDecided :
      (call : AccountCall) (mutate : StoreData → Draft T) (s : AccountStore)
      → ((m : Mutation StoreData T) → mutate s.rows ≡ ok m → IsDecided id m.rows)
      → IsDecided id s.rows
      → IsDecided id (enqueue_mutation call.writes mutate s).1.rows
  queue-IsDecided call mutate s keeps d = elim (enqueue_mutation_rows call.writes mutate s) [
    | inl e ↦ subst (IsDecided id) (sym e) d
    | inr (m, e, new) ↦ subst (IsDecided id) (sym new) (keeps m e)
  ]

  settle-IsDecided :
      (call : AccountCall) (mutate : StoreData → Draft T) (s : AccountStore)
      → ((m : Mutation StoreData T) → mutate s.rows ≡ ok m → IsDecided id m.rows)
      → IsDecided id s.rows
      → IsDecided id (settle call (ok mutate) s).1.rows
  unfolding settle
  settle-IsDecided call mutate s keeps d = queue-IsDecided call mutate s keeps d

  -- A check of the input that throws changes nothing.
  check-IsDecided :
      {B : Type 0} (call : AccountCall) (r : Result AccountError B)
      (next : B → Result AccountError (StoreData → Draft T)) (s : AccountStore)
      → IsDecided id s.rows
      → ((b : B) → IsDecided id (settle call (next b) s).1.rows)
      → IsDecided id (settle call (r >>= next) s).1.rows
  unfolding settle
  check-IsDecided call (throw e) next s d h = d
  check-IsDecided call (ok b) next s d h = h b

module _ (env : Env) (ttl_ms : ℕ) (id : Text) where
  serve-IsDecided :
      (call : AccountCall) (request : AccountRequest) (s : AccountStore)
      → call.user_id ≢ id
      → IsDecided id s.rows
      → IsDecided id (serve env ttl_ms call request s).rows
  unfolding serve register request_signup login logout approve_signup reject_signup bootstrap_admin
  serve-IsDecided call (register_request input) s ne d =
      check-IsDecided id call (normalize_email env input.email) _ s d (λ email.
        check-IsDecided id call (normal_name (present_name input.username)) _ s d (λ username.
          check-IsDecided id call (validate_password input.password) _ s d (λ _.
            settle-IsDecided id call _ s
              (λ m e. register-IsDecided id env call s.rows d input email username _ m ne e) d)))
  serve-IsDecided call (signup_request email_input password) s ne d =
      check-IsDecided id call (normalize_email env email_input) _ s d (λ email.
        check-IsDecided id call (validate_password password) _ s d (λ _.
          settle-IsDecided id call _ s (λ m e. signup-IsDecided id env call s.rows d email _ m ne e)
            d))
  serve-IsDecided call (login_request identifier password) s ne d =
      check-IsDecided id call (normalize_identifier env identifier) _ s d (λ i.
        settle-IsDecided id call _ s
          (λ m e. login-IsDecided id env call s.rows d ttl_ms password _ m e) d)
  serve-IsDecided call (logout_request token) s ne d =
      queue-IsDecided id call _ s (λ m e. logout-IsDecided id env call s.rows d _ m e) d
  serve-IsDecided call (approve_request k) s ne d =
      queue-IsDecided id call _ s (λ m e. approve-IsDecided id env call s.rows d k _ m e) d
  serve-IsDecided call (reject_request k) s ne d =
      queue-IsDecided id call _ s (λ m e. reject-IsDecided id env call s.rows d k _ m e) d
  serve-IsDecided call (bootstrap_request username_input password) s ne d =
      check-IsDecided id call (normalize_username username_input) _ s d (λ username.
        check-IsDecided id call (validate_password password) _ s d (λ _.
          settle-IsDecided id call _ s
            (λ m e. bootstrap-IsDecided id env call s.rows d username password _ m ne e) d))

  serve_all-IsDecided :
      (requests : List (AccountCall × AccountRequest)) (s : AccountStore)
      → IsNewTo id requests
      → IsDecided id s.rows
      → IsDecided id (serve_all env ttl_ms requests s).rows
  unfolding serve_all
  serve_all-IsDecided [] s n d = d
  serve_all-IsDecided ((call, request) ∷ requests) s n d =
      serve_all-IsDecided requests (serve env ttl_ms call request s) n.1
        (serve-IsDecided call request s n.0 d)

-- The decision of an operator.
abbrev pub decide :
    (approves : Bool) → AccountCall → (user_id : Text) → AccountStore → Reply SignupRequest
decide true = approve_signup
decide false = reject_signup

decide-settled :
    (approves : Bool) (call : AccountCall) (id : Text) (s : AccountStore)
    → IsDecided id s.rows
    → (decide approves call id s).0 ≡ throw (refused signup_settled)
unfolding approve_signup reject_signup approve_found reject_found enqueue_mutation run_mutation
decide-settled true call id s (a, found, decided) = rw (found, decided) refl
decide-settled false call id s (a, found, decided) = rw (found, decided) refl

approve_found-new :
    (call : AccountCall) (id : Text) (d : StoreData) (found : Option SellerAccount)
    (m : Mutation StoreData SignupRequest)
    → approve_found call id d found ≡ ok m
    → IsDecided id m.rows × (m.persist ≡ true)
unfolding approve_found
approve_found-new call id d none m e = cc
approve_found-new call id d (some a) m e =
    let a' : SellerAccount = record a { status = active; enabled = true; updated_at = call.now } in
    let rows : m.rows.accounts ≡ set id a' d.accounts = ground (arith, e) in
    ((a', rw (rows, get-set id id a' d.accounts, ==_refl id) refl, refl), ground (arith, e))

reject_found-new :
    (call : AccountCall) (id : Text) (d : StoreData) (found : Option SellerAccount)
    (m : Mutation StoreData SignupRequest)
    → reject_found call id d found ≡ ok m
    → IsDecided id m.rows × (m.persist ≡ true)
unfolding reject_found
reject_found-new call id d none m e = cc
reject_found-new call id d (some a) m e =
    let a' : SellerAccount = record a { status = rejected; updated_at = call.now } in
    let rows : m.rows.accounts ≡ set id a' d.accounts = ground (arith, e) in
    ((a', rw (rows, get-set id id a' d.accounts, ==_refl id) refl, refl), ground (arith, e))

decide-IsDecided :
    (approves : Bool) (call : AccountCall) (id : Text) (s : AccountStore) (r : SignupRequest)
    → (decide approves call id s).0 ≡ ok r
    → IsDecided id (decide approves call id s).1.rows
unfolding approve_signup reject_signup
decide-IsDecided true call id s r h =
    let (m, e, _, kept) =
      enqueue_mutation_answer call.writes (λ d. approve_found call id d (get id d.accounts)) s h in
    let (decided, persists) = approve_found-new call id s.rows (get id s.rows.accounts) m e in
    subst (IsDecided id) (sym (kept persists)) decided
decide-IsDecided false call id s r h =
    let (m, e, _, kept) =
      enqueue_mutation_answer call.writes (λ d. reject_found call id d (get id d.accounts)) s h in
    let (decided, persists) = reject_found-new call id s.rows (get id s.rows.accounts) m e in
    subst (IsDecided id) (sym (kept persists)) decided

-- A sign-up request is decided once: after it was approved or rejected, both decisions are refused
-- for it, whatever was requested in between and whichever writes failed. New accounts get
-- identifiers of their own.
pub decided_once :
    (env : Env) (ttl_ms : ℕ) (first again : Bool) (call call' : AccountCall) (id : Text)
    (s : AccountStore) (r : SignupRequest) (requests : List (AccountCall × AccountRequest))
    → (decide first call id s).0 ≡ ok r
    → IsNewTo id requests
    → (decide again call' id (serve_all env ttl_ms requests (decide first call id s).1)).0
      ≡ throw (refused signup_settled)
decided_once env ttl_ms first again call call' id s r requests h n =
    decide-settled again call' id (serve_all env ttl_ms requests (decide first call id s).1) (
      serve_all-IsDecided env ttl_ms id requests (decide first call id s).1 n
        (decide-IsDecided first call id s r h))
