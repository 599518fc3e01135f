-- ===== src/Persistence/Accounts/Examples.antt =====
-- src/persistence/accountStore.ts: a sign-up request that is approved, and the account's sign-in.
use online_seller_control_hu.Common.{
  ℕ, ◌≡◌, ◌≢◌, ◌≤◌, refl, none, some, true, false, [], ◌∷◌, List, ok, throw, codes, running, arith,
  Text, text_eq, map, lower_unit,
}
use online_seller_control_hu.Persistence.Files.{
  missing, back_up, persist_rows, run_mutation, enqueue_mutation, refused,
}
use online_seller_control_hu.Persistence.Accounts.{
  Env, SignupRequest, drop_sessions, delete_sessions, enforce_session_limit, active, free, owner,
  signup_settled,
}
use online_seller_control_hu.Persistence.Accounts.SignIns.{
  login, login_found, logout, logout_found, authenticate, session_found, session_account,
}
use online_seller_control_hu.Persistence.Accounts.Calls.{
  AccountCall, AccountStore, LoginReply, settle, register, register_found, request_signup,
  signup_found,
}
use online_seller_control_hu.Persistence.Accounts.Administration.{
  approve_signup, approve_found, reject_signup, reject_found, bootstrap_admin, bootstrap_found,
}
use online_seller_control_hu.Persistence.Accounts.Sessions.{sessions_of}
use online_seller_control_hu.Persistence.Accounts.Access.{login_opens_session}
use online_seller_control_hu.Persistence.Accounts.Decisions.{
  AccountRequest, signup_request, login_request, reject_request, serve, serve_all, decide,
  decided_once,
}

program : Unit {0}
unfolding running back_up persist_rows run_mutation enqueue_mutation drop_sessions delete_sessions
    enforce_session_limit settle register register_found request_signup signup_found login
    login_found logout logout_found approve_signup approve_found reject_signup reject_found
    bootstrap_admin bootstrap_found authenticate session_found session_account serve serve_all
program = tt

abbrev env : Env
env = record {
  lower = map lower_unit;
  is_email = λ s. true;
  sha256 = λ s. b'h' ∷ s;
  compare = λ password hash. true;
}

abbrev token : Text
token = codes "0123456789abcdef0123456789abcdef"

abbrev call : ℕ → Text → AccountCall
call now id = record {
  now = now;
  user_id = id;
  tenant_id = codes "shop";
  session_id = codes "ses1";
  token = token;
  password_hash = codes "secret";
  writes = record { backup = true; primary = true };
}

abbrev empty : AccountStore
empty = record {
  rows = record { accounts = []; sessions = [] };
  disk = record { primary = missing; backup = missing };
}

abbrev requested : AccountStore
requested = (request_signup env (call 1 (codes "u1")) (codes "A@b.kr") (codes "password12") empty).1

abbrev approved : SignupRequest
approved = record {
  user_id = codes "u1";
  email = codes "a@b.kr";
  username = none;
  status = active;
  created_at = 1;
  updated_at = 2;
}

approves : (decide true (call 2 (codes "u1")) (codes "u1") requested).0 ≡ ok approved
unfolding program
approves = refl

abbrev opened : AccountStore
opened = (decide true (call 2 (codes "u1")) (codes "u1") requested).1

abbrev reply : LoginReply
reply = record {
  identity = record {
    user_id = codes "u1";
    tenant_id = codes "shop";
    email = codes "a@b.kr";
    username = none;
    plan = free;
    role = owner;
    status = active;
  };
  token = token;
  expires_at = 103;
}

signs_in :
    (login env (call 3 (codes "u2")) 100 (codes "a@B.kr") (codes "password12") opened).0 ≡ ok reply
unfolding program
signs_in = refl

abbrev signed_in : AccountStore
signed_in = (login env (call 3 (codes "u2")) 100 (codes "a@B.kr") (codes "password12") opened).1

login_opens_session_example :
    (sessions_of (codes "u1") signed_in.rows.sessions ≤ 5)
    × (authenticate env token 102 signed_in.rows ≡ some reply.identity)
unfolding program
login_opens_session_example =
    login_opens_session env (call 3 (codes "u2")) 100 102 (codes "a@B.kr") (codes "password12")
      opened reply (refl, tt) (record { unique = tt; keyed = tt }) (omega arith) (omega arith) tt
      (omega arith) signs_in

other_id : codes "u2" ≢ codes "u1"
other_id e = ground arith

abbrev between : List (AccountCall × AccountRequest)
between =
    (call 3 (codes "u2"), login_request (codes "a@b.kr") (codes "password12"))
    ∷ (call 4 (codes "u2"), signup_request (codes "c@d.kr") (codes "password12"))
    ∷ (call 5 (codes "u2"), reject_request (codes "u2"))
    ∷ []

decided_once_example :
    (decide false (call 6 (codes "u2")) (codes "u1") (serve_all env 100 between opened)).0
    ≡ throw (refused signup_settled)
decided_once_example =
    decided_once env 100 true false (call 2 (codes "u1")) (call 6 (codes "u2")) (codes "u1")
      requested approved between approves (other_id, (other_id, (other_id, tt)))
