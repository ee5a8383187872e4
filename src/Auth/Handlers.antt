-- ===== src/Auth/Handlers.antt =====
-- backend/app/api/v1/auth.py: the handlers of registration and login. The limit on attempts comes
-- first, then the service, then the commit; an error leaves what is committed. Redis counts in
-- seconds, and `client` is what `client_key` reads from the request.
use interview_trainer.Prelude.{
  ℕ, ◌/◌, ◌≤◌, ◌≡◌, refl, sym, ap, ◌∙◌, arith, false, List, [], ◌∷◌, ◌++◌, some, String, ◌==◌,
  ==_self, nat_eq, string_eq, leb, find, any, find-append_none, Bool-cases, inl, inr,
}
use interview_trainer.Exceptions.{Error, Result, ok, err}
use interview_trainer.Float.{Float}
use interview_trainer.Models.{User}
use interview_trainer.Session.{Session}
use interview_trainer.RateLimit.{Redis, check}
use interview_trainer.RateLimit.{login as login_limit, register as register_limit}
use interview_trainer.Rows.Steps.{any-is_some-find}
use interview_trainer.Auth.{
  has_email, normalized, create_token, Library, Settings, TokenPair, access, second, register,
  authenticate, issue_tokens, new_user, available_user, get_current_user,
}
use interview_trainer.Auth.Tokens.{LibraryLaws, expiry, get_current_user-create_token}

-- the values of a request: its moment and the identifiers of its tokens
pub record Call : Type 0 where
  pub now : ℕ
  pub access_jti : ℕ
  pub refresh_jti : ℕ
  pub client : String

module _ (lib : Library) (settings : Settings) (redis : Redis) (fl : Float) where
  -- `session.commit()` and the tokens; the session of a request that failed is closed
  abbrev pub respond :
      Call → Result Error User → Session fl → Result Error (TokenPair lib.Token) × Session fl
  respond call (ok u) s = (
    ok (issue_tokens lib settings call.now call.access_jti call.refresh_jti u.id),
    record s { committed = s.current },
  )
  respond call (err e) s = (err e, record s { current = s.committed })

  abbrev pub Response : Type 0
  Response = Result Error (TokenPair lib.Token) × Session fl × redis.Store

  -- the service, once the limit lets the attempt pass
  abbrev pub guarded :
      Result Error (Unit {0}) × redis.Store → (redis.Store → Response) → Session fl → Response
  guarded (ok _, store) next s = next store
  guarded (err e, store) next s = (err e, record s { current = s.committed }, store)

  abbrev pub with_store : Result Error (TokenPair lib.Token) × Session fl → redis.Store → Response
  with_store r store = (r.0, r.1, store)

  unfoldable pub register_handler :
      Call → ℕ → ℕ → String → String → Session fl → redis.Store → Response
  unfolding check register issue_tokens
  register_handler call id salt email password s store =
      guarded (check redis (call.now / second) "register" call.client register_limit store)
        (λ store'.
          let (user, s') = register lib settings id salt email password s in
          with_store (respond call user s') store')
        s

  unfoldable pub login_handler :
      Call → ℕ → ℕ → String → String → Session fl → redis.Store → Response
  unfolding check authenticate issue_tokens
  login_handler call dummy_salt salt email password s store =
      guarded (check redis (call.now / second) "login:ip" call.client login_limit store)
        (λ store1.
          guarded
            (check redis (call.now / second) "login:email" (lib.lower email) login_limit store1)
            (λ store2.
              let (user, s') = authenticate lib settings dummy_salt salt email password s in
              with_store (respond call user s') store2)
            s)
        s

  guarded-ok :
      (r : Result Error (Unit {0}) × redis.Store) (next : redis.Store → Response) (s : Session fl)
      (tokens : TokenPair lib.Token)
      → (guarded r next s).0 ≡ ok tokens
      → guarded r next s ≡ next r.1
  guarded-ok (ok _, store) next s tokens h = refl
  guarded-ok (err e, store) next s tokens h = absurd (ground arith)

  -- a row that was added under a new id
  new_row :
      (users : List User) (n : User)
      → any (λ (u : User). u.id == n.id) users ≡ false
      → find (λ (u : User). u.id == n.id) (users ++ n ∷ []) ≡ some n
  new_row users n h =
      find-append_none (λ (u : User). u.id == n.id) users n
        (ground (arith, any-is_some-find (λ (u : User). u.id == n.id) users)) (==_self n.id)

  -- the service and the commit
  abbrev registered :
      Call → ℕ → ℕ → String → String → Session fl → Result Error (TokenPair lib.Token) × Session fl
  registered call id salt email password s =
      let (user, s') = register lib settings id salt email password s in respond call user s'

  module _ (laws : LibraryLaws lib) where
    registered-get_current_user :
        (call : Call) (id salt later : ℕ) (email password : String) (s : Session fl)
        (tokens : TokenPair lib.Token)
        → (registered call id salt email password s).0 ≡ ok tokens
        → any (λ (u : User). u.id == id) s.current.users ≡ false
        → call.now ≤ later
        → leb (expiry lib settings call.now access) later ≡ false
        → get_current_user lib settings later
            (some tokens.access_token)
            (registered call id salt email password s).1.committed
          ≡ ok (new_user lib settings id salt email password)
    unfolding register issue_tokens available_user
    registered-get_current_user call id salt later email password s tokens h new elapsed alive =
        let users = s.current.users in
        let n = new_user lib settings id salt email password in
        elim (Bool-cases (any (has_email lib settings (normalized lib settings email)) users)) [
          | inl taken ↦ absurd (ground arith)
          | inr free ↦
              let db = record s.current { users = users ++ n ∷ [] } in
              let own : tokens.access_token
                  ≡ create_token lib settings call.now call.access_jti id access =
                ground arith in
              let verdict =
                (get_current_user-create_token lib settings laws call.now later call.access_jti id 0
                  0 db elapsed).0 in
              ground (arith, own, verdict, new_row users n new)
        ]

    -- The tokens of a registration that succeeds let the new account in, from the database that was
    -- committed, until the access token is over, if its id is new.
    pub register_handler-get_current_user :
        (call : Call) (id salt later : ℕ) (email password : String) (s : Session fl)
        (store : redis.Store) (tokens : TokenPair lib.Token)
        → (register_handler call id salt email password s store).0 ≡ ok tokens
        → any (λ (u : User). u.id == id) s.current.users ≡ false
        → call.now ≤ later
        → leb (expiry lib settings call.now access) later ≡ false
        → get_current_user lib settings later
            (some tokens.access_token)
            (register_handler call id salt email password s store).1.committed
          ≡ ok (new_user lib settings id salt email password)
    unfolding register_handler
    register_handler-get_current_user call id salt later email password s store tokens h new elapsed
          alive =
        let passed =
          guarded-ok (check redis (call.now / second) "register" call.client register_limit store)
            (λ store'. with_store (registered call id salt email password s) store') s tokens h in
        ap
          (λ (r : Response).
            get_current_user lib settings later (some tokens.access_token) r.1.committed)
          passed
        ∙ registered-get_current_user call id salt later email password s tokens
            (sym (ap (λ (r : Response). r.0) passed) ∙ h) new elapsed alive
