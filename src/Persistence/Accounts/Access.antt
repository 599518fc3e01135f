-- ===== src/Persistence/Accounts/Access.antt =====
-- src/persistence/accountStore.ts: signing in opens a session that is recognised until it expires, and
-- only an active account is recognised.
use online_seller_control_hu.Common.{
  ℕ, ◌+◌, ◌≤◌, ◌<◌, ◌≡◌, refl, sym, ◌∙◌, ap, subst, inl, inr, Bool, true, false, ◌&&◌, Option, none,
  some, List, [], ◌∷◌, Text, text_eq, nat_eq, length, leb, arith, Bool-cases, All, includes, ◌==◌,
  ==_refl, find, Result, ok, throw, ◌>>=◌,
}
use online_seller_control_hu.Common.Dicts.{
  Dict, get, set, delete, keys, values, HasUniqueKeys, All-delete,
}
use online_seller_control_hu.Persistence.Files.{Mutation}
use online_seller_control_hu.Persistence.Files.Sync.{enqueue_mutation_answer}
use online_seller_control_hu.Persistence.Accounts.{
  Env, SellerAccount, Session, StoreData, AccountIdentity, AccountError, delete_sessions,
  enforce_session_limit, drop_sessions, prune_expired_sessions, public_identity, is_active,
}
use online_seller_control_hu.Persistence.Accounts.SignIns.{
  login, login_found, logged_in, new_session, find_account, authenticate, session_found,
  session_account,
}
use online_seller_control_hu.Persistence.Accounts.Calls.{
  AccountCall, AccountStore, LoginReply, settle,
}
use online_seller_control_hu.Persistence.Accounts.Sessions.{
  IsKeyed, sessions_of, enforce_session_limit_lem,
}

module _ {ℓ} (P : Text × Session → Type ℓ) where
  drop-All : (p : Session → Bool) (d : Dict Text Session) → All P d → All P (drop_sessions p d)
  unfolding drop_sessions
  drop-All p [] h = tt
  drop-All p (e ∷ d) h = ground (arith, drop-All p d h.1)

  delete_sessions-All :
      (ss : List Session) (d : Dict Text Session) → All P d → All P (delete_sessions ss d)
  unfolding delete_sessions
  delete_sessions-All [] d h = h
  delete_sessions-All (s ∷ ss) d h =
      delete_sessions-All ss (delete s.session_id d) (All-delete P s.session_id d h)

  enforce-All :
      (user_id : Text) (n : ℕ) (d : Dict Text Session)
      → All P d
      → All P (enforce_session_limit user_id n d)
  unfolding enforce_session_limit
  enforce-All user_id n d h = delete_sessions-All _ d h

drop-includes :
    (k : Text) (p : Session → Bool) (d : Dict Text Session)
    → includes k (keys d) ≡ false
    → includes k (keys (drop_sessions p d)) ≡ false
unfolding drop_sessions
drop-includes k p [] h = refl
drop-includes k p (e ∷ d) h = ground (arith, drop-includes k p d)

drop-HasUniqueKeys :
    (p : Session → Bool) (d : Dict Text Session)
    → HasUniqueKeys d
    → HasUniqueKeys (drop_sessions p d)
unfolding drop_sessions
drop-HasUniqueKeys p [] u = tt
drop-HasUniqueKeys p (e ∷ d) u =
    ground (arith, drop-HasUniqueKeys p d u.1, drop-includes e.0 p d u.0)

drop-IsKeyed :
    (p : Session → Bool) (d : Dict Text Session) → IsKeyed d → IsKeyed (drop_sessions p d)
drop-IsKeyed p d k = record {
  unique = drop-HasUniqueKeys p d k.unique;
  keyed = drop-All (λ e. e.1.session_id ≡ e.0) p d k.keyed;
}

sessions_of-set :
    (user_id k : Text) (s : Session) (d : Dict Text Session)
    → sessions_of user_id (set k s d) ≤ sessions_of user_id d + 1
unfolding set
sessions_of-set user_id k s [] = ground arith
sessions_of-set user_id k s ((j, r) ∷ d) = ground (arith, sessions_of-set user_id k s d)

-- The new session is the one with its token.
find-set :
    (hash k : Text) (s : Session) (d : Dict Text Session)
    → All (λ e. (e.1.token_hash == hash) ≡ false) d
    → (s.token_hash == hash) ≡ true
    → find (λ x. x.token_hash == hash) (values (set k s d)) ≡ some s
unfolding set
find-set hash k s [] h m = rw m refl
find-set hash k s ((j, r) ∷ d) h m = elim (Bool-cases (j == k)) [
  | inl e ↦ rw (e, m) refl
  | inr e ↦ rw (e, h.0) (find-set hash k s d h.1 m)
]

-- The account that an identifier finds is stored under its own identifier.
abbrev pub HasKeyedAccounts : StoreData → Type 0
HasKeyedAccounts d = All (λ e. get e.1.user_id d.accounts ≡ some e.1) d.accounts

find-All :
    (P : SellerAccount → Type 0) (p : SellerAccount → Bool) (a : SellerAccount)
    (d : Dict Text SellerAccount)
    → All (λ e. P e.1) d
    → find p (values d) ≡ some a
    → P a
find-All P p a [] h f = cc
find-All P p a ((k, b) ∷ d) h f = elim (Bool-cases (p b)) [
  | inl e ↦ let found : some b ≡ some a = rw e at f in let same : b ≡ a = cc in subst P same h.0
  | inr e ↦ find-All P p a d h.1 (rw e at f)
]

find_account-stored :
    (env : Env) (d : StoreData) (identifier : Text) (a : SellerAccount)
    → HasKeyedAccounts d
    → find_account env d identifier ≡ some a
    → get a.user_id d.accounts ≡ some a
find_account-stored env d identifier a k f = elim (Bool-cases (includes b'@' identifier)) [
  | inl e ↦ find-All (λ b. get b.user_id d.accounts ≡ some b) _ a d.accounts k (rw e at f)
  | inr e ↦ find-All (λ b. get b.user_id d.accounts ≡ some b) _ a d.accounts k (rw e at f)
]

-- What a sign-in that succeeds has found and what it stores.
login_found-ok :
    (env : Env) (call : AccountCall) (ttl_ms : ℕ) (password : Text) (d : StoreData)
    (found : Option SellerAccount) (m : Mutation StoreData LoginReply)
    → login_found env call ttl_ms password d found ≡ ok m
    → (a : SellerAccount) × (found ≡ some a)
      × ((a.enabled && is_active a.status) ≡ true)
      × (env.compare password a.password_hash ≡ true)
      × (m.rows ≡ logged_in env call ttl_ms a d)
      × (m.persist ≡ true)
      × (m.result.identity ≡ public_identity a)
unfolding login_found
login_found-ok env call ttl_ms password d none m e = cc
login_found-ok env call ttl_ms password d (some a) m e =
    (a, refl, ground arith, ground arith, ground arith, ground arith, ground arith)

-- A sign-in that succeeded, with the account that it found.
record IsSignedIn (env : Env) (call : AccountCall) (ttl_ms : ℕ) (password : Text) (d d' : StoreData)
    (identity : AccountIdentity) : Type 0 where
  account : SellerAccount
  stored : get account.user_id d.accounts ≡ some account
  open_account : (account.enabled && is_active account.status) ≡ true
  valid : env.compare password account.password_hash ≡ true
  rows : d' ≡ logged_in env call ttl_ms account d
  same : identity ≡ public_identity account

settle-IsSignedIn :
    (env : Env) (call : AccountCall) (ttl_ms : ℕ) (password : Text) (s : AccountStore)
    (reply : LoginReply) (r : Result AccountError Text)
    → let q =
        settle call
          (r >>= λ identifier.
            ok (λ d. login_found env call ttl_ms password d (find_account env d identifier)))
          s in
      HasKeyedAccounts s.rows
      → q.0 ≡ ok reply
      → IsSignedIn env call ttl_ms password s.rows q.1.rows reply.identity
unfolding settle
settle-IsSignedIn env call ttl_ms password s reply (throw e) k h = cc
settle-IsSignedIn env call ttl_ms password s reply (ok identifier) k h =
    let (m, e, answer, kept) =
      enqueue_mutation_answer call.writes
        (λ d. login_found env call ttl_ms password d (find_account env d identifier)) s h in
    let (a, found, open_account, valid, rows, persists, same) =
      login_found-ok env call ttl_ms password s.rows (find_account env s.rows identifier) m e in
    record {
      account = a;
      stored = find_account-stored env s.rows identifier a k found;
      open_account = open_account;
      valid = valid;
      rows = kept persists ∙ rows;
      same = sym (ap LoginReply.identity answer) ∙ same;
    }

login-IsSignedIn :
    (env : Env) (call : AccountCall) (ttl_ms : ℕ) (identifier password : Text) (s : AccountStore)
    (reply : LoginReply)
    → HasKeyedAccounts s.rows
    → (login env call ttl_ms identifier password s).0 ≡ ok reply
    → IsSignedIn env call ttl_ms password s.rows
        (login env call ttl_ms identifier password s).1.rows
        reply.identity
unfolding login
login-IsSignedIn env call ttl_ms identifier password s reply k h =
    settle-IsSignedIn env call ttl_ms password s reply _ k h

authenticate-logged_in :
    (env : Env) (call : AccountCall) (ttl_ms now : ℕ) (a : SellerAccount) (d : StoreData)
    → get a.user_id d.accounts ≡ some a
    → (a.enabled && is_active a.status) ≡ true
    → 32 ≤ length call.token
    → length call.token ≤ 512
    → All (λ e. (e.1.token_hash == env.sha256 call.token) ≡ false) d.sessions
    → now < call.now + ttl_ms
    → authenticate env call.token now (logged_in env call ttl_ms a d) ≡ some (public_identity a)
unfolding authenticate session_found session_account
authenticate-logged_in env call ttl_ms now a d stored open_account lo hi fresh live =
    let P : Text × Session → Type 0 = λ e. (e.1.token_hash == env.sha256 call.token) ≡ false in
    let kept =
      enforce-All P a.user_id 4 _ (drop-All P (λ s. leb s.expires_at call.now) d.sessions fresh) in
    let found =
      find-set (env.sha256 call.token) call.session_id (new_session env call ttl_ms a)
        (enforce_session_limit a.user_id 4 (prune_expired_sessions call.now d.sessions)) kept
        (==_refl (env.sha256 call.token)) in
    rw (found, stored, open_account) (ground arith)

-- A sign-in that succeeds leaves its user with at most five sessions. Its token is recognised as the
-- account that was answered, until the session expires. The tokens have between 32 and 512
-- characters and hashes of their own; accounts and sessions stand under their identifiers.
pub login_opens_session :
    (env : Env) (call : AccountCall) (ttl_ms now : ℕ) (identifier password : Text)
    (s : AccountStore) (reply : LoginReply)
    → HasKeyedAccounts s.rows
    → IsKeyed s.rows.sessions
    → 32 ≤ length call.token
    → length call.token ≤ 512
    → All (λ e. (e.1.token_hash == env.sha256 call.token) ≡ false) s.rows.sessions
    → now < call.now + ttl_ms
    → (login env call ttl_ms identifier password s).0 ≡ ok reply
    → let d = (login env call ttl_ms identifier password s).1.rows in
      (sessions_of reply.identity.user_id d.sessions ≤ 5)
      × (authenticate env call.token now d ≡ some reply.identity)
login_opens_session env call ttl_ms now identifier password s reply k keyed lo hi fresh live h =
    let i = login-IsSignedIn env call ttl_ms identifier password s reply k h in
    let a = i.account in
    let pruned = drop-IsKeyed (λ x. leb x.expires_at call.now) s.rows.sessions keyed in
    let limit =
      enforce_session_limit_lem a.user_id 4 (prune_expired_sessions call.now s.rows.sessions)
        pruned in
    let one_more =
      sessions_of-set a.user_id call.session_id (new_session env call ttl_ms a)
        (enforce_session_limit a.user_id 4 (prune_expired_sessions call.now s.rows.sessions)) in
    rw (i.rows, i.same)
      (
        omega (arith, limit, one_more),
        authenticate-logged_in env call ttl_ms now a s.rows i.stored i.open_account lo hi fresh
            live,
      )
