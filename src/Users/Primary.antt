-- ===== src/Users/Primary.antt =====
-- At most one primary specialization (`set_specialization`, backend/app/services/user.py).
use interview_trainer.Prelude.{
  ℕ, ◌≡◌, refl, sym, ◌∙◌, Bool, true, false, not, List, [], ◌∷◌, Option, none, some, String, arith,
  find, if◌then◌else◌, nat_eq, string_eq, ==_self, Option-cases, inl, inr, all, find-test,
  find-append_none, Bool-cases, ◌⊎◌,
}
use interview_trainer.Exceptions.{ok, err, not_found, invalid_input}
use interview_trainer.Float.{Float}
use interview_trainer.Models.{Specialization, User, UserSpecialization}
use interview_trainer.Session.{Session, update}
use interview_trainer.Session.Laws.{find-update}
use interview_trainer.Practice.Lookups.{is_profile, find_profile}
use interview_trainer.Users.{
  set_specialization, reset_other_primaries, is_other_primary, save_profile, chosen,
  find_specialization, target_or,
}

-- The user has no primary specialization but this one.
abbrev pub no_other_primary : ℕ → String → List UserSpecialization → Bool
no_other_primary user kept = all (λ p. not (is_other_primary user kept p))

no_other_primary-reset :
    (user : ℕ) (kept : String) (rows : List UserSpecialization)
    → no_other_primary user kept (reset_other_primaries user kept rows) ≡ true
unfolding reset_other_primaries all is_other_primary update
no_other_primary-reset user kept [] = refl
no_other_primary-reset user kept (p ∷ ps) = ground (arith, no_other_primary-reset user kept ps)

find-reset :
    (user : ℕ) (kept : String) (rows : List UserSpecialization)
    → find (is_profile user kept) (reset_other_primaries user kept rows)
      ≡ find (is_profile user kept) rows
unfolding reset_other_primaries find is_other_primary is_profile update
find-reset user kept [] = refl
find-reset user kept (p ∷ ps) = ground (arith, find-reset user kept ps)

find-save_profile :
    (user : ℕ) (specialization : String) (profile : UserSpecialization)
    (rows : List UserSpecialization)
    → is_profile user specialization profile ≡ true
    → find
        (is_profile user specialization)
        (save_profile user specialization profile (find (is_profile user specialization) rows) rows)
      ≡ some profile
unfolding save_profile
find-save_profile user specialization profile rows h =
    let test = is_profile user specialization in
    elim (Option-cases (find test rows)) [
      | inl absent ↦ let added = find-append_none test rows profile absent h in ground arith
      | inr (old, found) ↦
          let passed = find-test test rows old found in
          let changed = find-update test test (λ _. profile) rows (λ x e. h ∙ sym e) old found in
          ground (arith, changed)
    ]

is_profile-chosen :
    (user : ℕ) (specialization : String) (grade target : ℕ) (is_primary : Bool)
    (rows : List UserSpecialization)
    → let found = find (is_profile user specialization) rows in
      is_profile user specialization (chosen user specialization grade target is_primary found)
      ≡ true
unfolding is_profile chosen
is_profile-chosen user specialization grade target is_primary rows =
    elim (Option-cases (find (is_profile user specialization) rows)) [
      | inl absent ↦ ground (arith, ==_self user, ==_self specialization)
      | inr (old, found) ↦
          let passed = find-test (is_profile user specialization) rows old found in
          ground (arith, passed)
    ]

module _ {fl : Float} where
  module _ (user : User) (specialization : String) (grade : ℕ) (is_primary : Bool)
      (target : Option ℕ) (s : Session fl) where
    abbrev found : Option UserSpecialization
    found = find_profile user.id specialization s.current

    abbrev pub profile_row : UserSpecialization
    profile_row = chosen user.id specialization grade (target_or grade target) is_primary found

    abbrev saved : List UserSpecialization
    saved = save_profile user.id specialization profile_row found s.current.user_specializations

    -- what a choice that succeeds returns and stores
    set_specialization-ok :
        (profile : UserSpecialization)
        → (set_specialization user specialization grade is_primary target s).0 ≡ ok profile
        → (profile ≡ profile_row)
          × ((set_specialization user specialization grade is_primary target
                s).1.current.user_specializations
              ≡ (if is_primary then reset_other_primaries user.id specialization saved else saved))
    unfolding set_specialization
    set_specialization-ok profile h = ground arith

  -- After a choice that succeeds, the profile of the specialization is the one that was returned,
  -- with the grade, the target (the grade itself when none is given) and the mark of the call.
  pub set_specialization-find_profile :
      (user : User) (specialization : String) (grade : ℕ) (is_primary : Bool) (target : Option ℕ)
      (s : Session fl) (profile : UserSpecialization)
      → (set_specialization user specialization grade is_primary target s).0 ≡ ok profile
      → (find_profile user.id specialization
            (set_specialization user specialization grade is_primary target s).1.current
          ≡ some profile)
        × (profile.self_assessed_grade ≡ grade)
        × (profile.target_grade ≡ target_or grade target)
        × (profile.is_primary ≡ is_primary)
  unfolding chosen find_profile
  set_specialization-find_profile user specialization grade is_primary target s profile h =
      let (same, rows) =
        set_specialization-ok user specialization grade is_primary target s profile h in
      let kept =
        is_profile-chosen user.id specialization grade (target_or grade target) is_primary
          s.current.user_specializations in
      let row = profile_row user specialization grade is_primary target s in
      let read = find-save_profile user.id specialization row s.current.user_specializations kept in
      let reset =
        find-reset user.id specialization (saved user specialization grade is_primary target s) in
      elim (Bool-cases is_primary) [
        | inl on ↦
            (ground (arith, rows, read, reset, same), ground arith, ground arith, ground arith)
        | inr off ↦ (ground (arith, rows, read, same), ground arith, ground arith, ground arith)
      ]

  -- A choice as the primary specialization that succeeds leaves the user no other primary one.
  pub set_specialization-no_other_primary :
      (user : User) (specialization : String) (grade : ℕ) (target : Option ℕ) (s : Session fl)
      (profile : UserSpecialization)
      → (set_specialization user specialization grade true target s).0 ≡ ok profile
      → no_other_primary user.id specialization
          (set_specialization user specialization grade true target
            s).1.current.user_specializations
        ≡ true
  set_specialization-no_other_primary user specialization grade target s profile h =
      let (same, rows) = set_specialization-ok user specialization grade true target s profile h in
      rw rows (
        no_other_primary-reset user.id specialization
          (saved user specialization grade true target s))

  -- A choice of a specialization that does not exist, or is not active, is refused and changes
  -- nothing; every other choice succeeds.
  set_specialization-refused :
      (user : User) (specialization : String) (grade : ℕ) (is_primary : Bool) (target : Option ℕ)
      (s : Session fl)
      → ((set_specialization user specialization grade is_primary target s ≡ (err not_found, s))
          × (find_specialization specialization s.current ≡ none))
        ⊎ ((row : Specialization) × (find_specialization specialization s.current ≡ some row)
            × (row.is_active ≡ false)
            × (set_specialization user specialization grade is_primary target s
                ≡ (err invalid_input, s)))
        ⊎ ((row : Specialization) × (find_specialization specialization s.current ≡ some row)
            × (row.is_active ≡ true)
            × ((set_specialization user specialization grade is_primary target s).0
                ≡ ok (profile_row user specialization grade is_primary target s)))
  unfolding set_specialization
  set_specialization-refused user specialization grade is_primary target s =
      elim (Option-cases (find_specialization specialization s.current)) [
        | inl absent ↦ inl (ground arith, absent)
        | inr (row, named) ↦ elim (Bool-cases row.is_active) [
          | inl on ↦ inr (inr (row, named, on, ground arith))
          | inr off ↦ inr (inl (row, named, off, ground arith))
        ]
      ]
