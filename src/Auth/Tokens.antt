-- ===== src/Auth/Tokens.antt =====
-- Tokens (backend/app/core/security.py): what a token that was issued is worth, and for what.
use interview_trainer.Prelude.{
  ℕ, ◌+◌, ◌*◌, ◌/◌, ◌≤◌, ◌≡◌, arith, Bool, true, false, Option, none, some, String, find, find-test,
  Option-cases, inl, inr, ==_iff, if◌then◌else◌, ◌==◌, nat_eq, string_eq, leb,
}
use interview_trainer.Exceptions.{Error, Result, ok, err, authentication}
use interview_trainer.Float.{Float}
use interview_trainer.Models.{Database, User}
use interview_trainer.Auth.{
  TokenType, access, refresh, token_value, Claims, TokenPayload, expired, wrong_type, decoded,
  expired_signature, matches, mismatch, Library, Settings, second, lifetime, create_token,
  decode_token, read_claims, available_user, user_of_token, refresh_tokens, get_current_user,
  issue_tokens,
}

-- What PyJWT, argon2 and uuid document: a token that is decoded with its key gives its claims from
-- the second of `iat` on until that of `exp`; a hash verifies the password it was made from alone,
-- and need not be made again; a uuid is read back from its text.
pub record LibraryLaws (lib : Library) : Type 0 where
  pub decode-encode :
      (c : Claims lib.IdText) (key : String) (now : ℕ)
      → c.iat * second ≤ now
      → lib.decode (lib.encode c key) key now
        ≡ (if leb (c.exp * second) now then expired_signature else decoded c)
  pub uuid_of-uuid_text : (n : ℕ) → lib.uuid_of (lib.uuid_text n) ≡ some n
  pub verify-hash :
      (salt : ℕ) (password other : String)
      → lib.verify (lib.hash salt password) other
        ≡ (if password == other then matches else mismatch)
  pub check_needs_rehash-hash :
      (salt : ℕ) (password : String) → lib.check_needs_rehash (lib.hash salt password) ≡ some false

abbrev pub same_type : TokenType → TokenType → Bool
same_type access access = true
same_type refresh refresh = true
same_type _ _ = false

-- `session.get(User, subject)`
abbrev pub account : {fl : Float} → ℕ → Database fl → Option User
account subject db = find (λ (u : User). u.id == subject) db.users

-- An account that is there and active is let in.
abbrev pub admitted : Option User → Result Error User
admitted none = err authentication
admitted (some u) = if u.is_active then ok u else err authentication

abbrev pub renewed {ℓ} : {T : Type ℓ} → T → Option User → Result Error T
renewed tokens none = err authentication
renewed tokens (some u) = if u.is_active then ok tokens else err authentication

module _ (lib : Library) (settings : Settings) where
  -- the end of a token, in whole seconds
  abbrev pub expiry : ℕ → TokenType → ℕ
  expiry issued t = (issued + lifetime lib settings t) / second * second

  abbrev pub payload_of : ℕ → ℕ → ℕ → TokenType → TokenPayload
  payload_of issued jti subject t = record {
    subject = subject;
    token_type = t;
    jti = jti;
    expires_at = expiry issued t;
  }

  abbrev pub claims_of : ℕ → ℕ → ℕ → TokenType → Claims lib.IdText
  claims_of issued jti subject t = record {
    sub = lib.uuid_text subject;
    type = token_value t;
    jti = lib.uuid_text jti;
    iat = issued / second;
    exp = (issued + lifetime lib settings t) / second;
  }

  module _ (laws : LibraryLaws lib) where
    iat-le : (issued now : ℕ) → issued ≤ now → issued / second * second ≤ now
    iat-le issued now h = omega arith

    read_claims-type :
        (issued jti subject : ℕ) (t t' : TokenType)
        → read_claims lib settings (claims_of issued jti subject t) t'
          ≡ (if same_type t t' then ok (payload_of issued jti subject t) else err wrong_type)
    unfolding read_claims
    read_claims-type issued jti subject access access =
        ground (arith, laws.uuid_of-uuid_text subject, laws.uuid_of-uuid_text jti)
    read_claims-type issued jti subject refresh refresh =
        ground (arith, laws.uuid_of-uuid_text subject, laws.uuid_of-uuid_text jti)
    read_claims-type issued jti subject access refresh = ground arith
    read_claims-type issued jti subject refresh access = ground arith

    -- A token that was issued before is refused once it is over, and before that it is accepted for
    -- its own type alone, with the user and the identifier that it was issued for.
    pub decode_token-create_token :
        (issued now jti subject : ℕ) (t t' : TokenType)
        → issued ≤ now
        → decode_token lib settings now (create_token lib settings issued jti subject t) t' ≡ (
            if leb (expiry issued t) now
            then err expired
            else if same_type t t'
            then ok (payload_of issued jti subject t)
            else err wrong_type)
    unfolding decode_token create_token
    decode_token-create_token issued now jti subject t t' h = ground (
      arith,
      laws.decode-encode (claims_of issued jti subject t) settings.secret_key now
          (iat-le issued now h),
      read_claims-type issued jti subject t t',
    )

    module _ {fl : Float} where
      -- what a token gets its bearer, as an access token and as a refresh token
      access_token-verdict :
          (issued now jti subject : ℕ) (db : Database fl)
          → issued ≤ now
          → get_current_user lib settings now
              (some (create_token lib settings issued jti subject access))
              db
            ≡ (if leb (expiry issued access) now
                then err authentication
                else admitted (account subject db))
      unfolding get_current_user user_of_token available_user
      access_token-verdict issued now jti subject db h = elim (Option-cases (account subject db)) [
        | inl absent ↦
            ground (arith, decode_token-create_token issued now jti subject access access h)
        | inr (u, found) ↦
            ground (arith, decode_token-create_token issued now jti subject access access h)
      ]

      refresh_token-verdict :
          (issued now jti subject a r : ℕ) (db : Database fl)
          → issued ≤ now
          → refresh_tokens lib settings now a r
              (create_token lib settings issued jti subject refresh)
              db
            ≡ (if leb (expiry issued refresh) now
                then err authentication
                else renewed (issue_tokens lib settings now a r subject) (account subject db))
      unfolding refresh_tokens user_of_token available_user
      refresh_token-verdict issued now jti subject a r db h =
          elim (Option-cases (account subject db)) [
            | inl absent ↦
                ground (arith, decode_token-create_token issued now jti subject refresh refresh h)
            | inr (u, found) ↦
                let own = find-test (λ (x : User). x.id == subject) db.users u found in
                ground (
                  arith,
                  decode_token-create_token issued now jti subject refresh refresh h,
                  ==_iff u.id subject,
                )
          ]

      -- An access token that was issued before lets its user in exactly as long as it is not over
      -- and the account is there and active, and in all other cases is refused with a 401; a refresh
      -- token renews the tokens of its user under the same conditions; and neither is taken in the
      -- place of the other.
      pub get_current_user-create_token :
          (issued now jti subject a r : ℕ) (db : Database fl)
          → issued ≤ now
          → (get_current_user lib settings now
                (some (create_token lib settings issued jti subject access))
                db
              ≡ (if leb (expiry issued access) now
                  then err authentication
                  else admitted (account subject db)))
            × (refresh_tokens lib settings now a r
                  (create_token lib settings issued jti subject refresh)
                  db
                ≡ (if leb (expiry issued refresh) now
                    then err authentication
                    else renewed (issue_tokens lib settings now a r subject) (account subject db)))
            × (get_current_user lib settings now
                  (some (create_token lib settings issued jti subject refresh))
                  db
                ≡ err authentication)
            × (refresh_tokens lib settings now a r
                  (create_token lib settings issued jti subject access)
                  db
                ≡ err authentication)
      unfolding get_current_user refresh_tokens user_of_token
      get_current_user-create_token issued now jti subject a r db h = (
        access_token-verdict issued now jti subject db h,
        refresh_token-verdict issued now jti subject a r db h,
        ground (arith, decode_token-create_token issued now jti subject refresh access h),
        ground (arith, decode_token-create_token issued now jti subject access refresh h),
      )
