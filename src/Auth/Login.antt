-- ===== src/Auth/Login.antt =====
-- Registration and login (backend/app/services/auth.py).
use interview_trainer.Prelude.{
  ℕ, ◌≡◌, refl, ap, ◌∙◌, arith, true, [], ◌∷◌, ◌++◌, none, some, String, if◌then◌else◌, ◌==◌,
  ==_self, nat_eq, string_eq, find, any, any-append, find-append_none, Option-cases, Bool-cases,
  inl, inr,
}
use interview_trainer.Exceptions.{conflict, ok, err, authentication}
use interview_trainer.Float.{Float}
use interview_trainer.Models.{Database, User}
use interview_trainer.Session.{Session}
use interview_trainer.Rows.Steps.{any-is_some-find}
use interview_trainer.Auth.{
  matches, Library, Settings, verify_password, normalized, has_email, new_user, register,
  authenticate, admit, rehash, needs_rehash,
}
use interview_trainer.Auth.Tokens.{LibraryLaws}

module _ (lib : Library) (settings : Settings) {fl : Float} where
  -- the account of a registration is found under its email
  taken-register :
      (id salt : ℕ) (email password : String) (s : Session fl) (u : User) (key : String)
      → (register lib settings id salt email password s).0 ≡ ok u
      → key ≡ normalized lib settings email
      → any
          (has_email lib settings key)
          (register lib settings id salt email password s).1.current.users
        ≡ true
  unfolding register any
  taken-register id salt email password s u key h e =
      let own = normalized lib settings email in
      let n = new_user lib settings id salt email password in
      elim (Bool-cases (any (has_email lib settings own) s.current.users)) [
        | inl taken ↦ absurd (ground arith)
        | inr free ↦ rw e (
            rw (free, register)
              (any-append (has_email lib settings own) s.current.users (n ∷ [])
                ∙ ground (arith, ==_self own)))
      ]

  -- Once an email is registered, a second registration under a way of writing it that comes to the
  -- same when blanks and case are dropped, in any session that sees the first one, is refused with
  -- a conflict and rolls its transaction back: no account is added, what is committed stays, and
  -- what was only flushed is gone, the first account included if it was not committed.
  pub register-register :
      (id salt id' salt' : ℕ) (email password email' password' : String) (s s' : Session fl)
      (u : User)
      → (register lib settings id salt email password s).0 ≡ ok u
      → lib.lower (lib.strip email') ≡ lib.lower (lib.strip email)
      → s'.current ≡ (register lib settings id salt email password s).1.current
      → register lib settings id' salt' email' password' s'
        ≡ (err conflict, record s' { current = s'.committed })
  unfolding register
  register-register id salt id' salt' email password email' password' s s' u h e seen =
      let taken : any (has_email lib settings (normalized lib settings email')) s'.current.users
          ≡ true =
        ap
          (λ (db : Database fl).
            any (has_email lib settings (normalized lib settings email')) db.users)
          seen
        ∙ taken-register id salt email password s u (normalized lib settings email') h e in
      rw (taken) refl

  module _ (laws : LibraryLaws lib) where
    -- A registered user logs in with the password of the registration and with no other, under every
    -- way of writing the email that comes to the same when blanks and case are dropped.
    pub register-authenticate :
        (id salt dummy later : ℕ) (email email' password password' : String) (s : Session fl)
        (u : User)
        → (register lib settings id salt email password s).0 ≡ ok u
        → normalized lib settings email' ≡ normalized lib settings email
        → let s' = (register lib settings id salt email password s).1 in
          authenticate lib settings dummy later email' password' s'
          ≡ (if password == password' then (ok u, s') else (err authentication, s'))
    unfolding register authenticate admit rehash needs_rehash verify_password
    register-authenticate id salt dummy later email email' password password' s u h e =
        let key = normalized lib settings email in
        let users = s.current.users in
        let n = new_user lib settings id salt email password in
        elim (Bool-cases (any (has_email lib settings key) users)) [
          | inl taken ↦ absurd (ground arith)
          | inr free ↦
              let absent : find (has_email lib settings key) users ≡ none =
                ground (arith, any-is_some-find (has_email lib settings key) users) in
              let found : find (has_email lib settings (normalized lib settings email'))
                    (users ++ n ∷ [])
                  ≡ some n =
                ap (λ k. find (has_email lib settings k) (users ++ n ∷ [])) e
                ∙ find-append_none (has_email lib settings key) users n absent (==_self key) in
              ground (
                arith,
                found,
                laws.verify-hash salt password password',
                laws.check_needs_rehash-hash salt password,
              )
        ]

  -- Whoever logs in has an account with the email that is active, and a password that its hash
  -- verifies; the id of the user is the one of that account.
  pub authenticate_lem :
      (dummy salt : ℕ) (email password : String) (s : Session fl) (u : User)
      → (authenticate lib settings dummy salt email password s).0 ≡ ok u
      → (v : User) × (find (has_email lib settings (normalized lib settings email)) s.current.users
          ≡ some v)
        × (v.is_active ≡ true)
        × (lib.verify v.password_hash password ≡ matches)
        × (u.id ≡ v.id)
  unfolding authenticate admit rehash verify_password
  authenticate_lem dummy salt email password s u h =
      elim (Option-cases
        (find (has_email lib settings (normalized lib settings email)) s.current.users)) [
          | inl absent ↦ absurd (ground arith)
          | inr (v, found) ↦ (v, found, ground arith, ground arith, ground arith)
        ]
