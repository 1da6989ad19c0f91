-- ===== src/Http/DoRequest/Accounts.antt =====
-- Registration and login against the table of users.
use mathlib.Core.Option.{none-ne-some, some-injective}
use mathlib.Core.Bool.{true≢false}
use my_web_server_cmake.Prelude.{
  ℕ, ◌<◌, ◌≡◌, ◌≢◌, ◌↔◌, inl, inr, arith, refl, ◌∙◌, ap, ap₂, sym, true, false, Option, none, some,
  [], ◌∷◌, ◌++◌, length, ◌==◌, lt→ltb, if◌then◌else◌, Bool-cases, Option-cases,
}
use my_web_server_cmake.Http.Text.{Bytes, codes}
use my_web_server_cmake.Http.Request.{done}
use my_web_server_cmake.Http.DoRequest.{Users, bytes_eq, find, insert, sql_insert, sign_up, sign_in}

pub bytes_eq_refl : (a : Bytes) → bytes_eq a a ≡ true
unfolding bytes_eq
bytes_eq_refl [] = refl
bytes_eq_refl (x ∷ a) = ground (arith, bytes_eq_refl a)

pub bytes_eq→eq : (a b : Bytes) → bytes_eq a b ≡ true → a ≡ b
unfolding bytes_eq
bytes_eq→eq [] [] h = refl
bytes_eq→eq [] (y ∷ b) h = ground arith
bytes_eq→eq (x ∷ a) [] h = ground arith
bytes_eq→eq (x ∷ a) (y ∷ b) h =
    let both : (x ≡ y) × (bytes_eq a b ≡ true) = ground arith in
    ap₂ ◌∷◌ both.0 (bytes_eq→eq a b both.1)

find-append :
    (users : Users) (name password : Bytes)
    → find users name ≡ none
    → find (users ++ (name, password) ∷ []) name ≡ some password
unfolding find
find-append [] name password h = simp (bytes_eq_refl name)
find-append ((n, p) ∷ users) name password h = elim (Bool-cases (bytes_eq n name)) [
  | inl same ↦ ground (arith, same)
  | inr other ↦
      let skip : find ((n, p) ∷ users) name ≡ find users name = simp other in
      rw other (find-append users name password (sym skip ∙ h))
]

find-append_other :
    (users : Users) (name password n : Bytes)
    → bytes_eq name n ≡ false
    → find (users ++ (name, password) ∷ []) n ≡ find users n
unfolding find
find-append_other [] name password n h = simp h
find-append_other ((m, p) ∷ users) name password n h =
    ap (λ r. if bytes_eq m n then some p else r) (find-append_other users name password n h)

abbrev welcome : Bytes
welcome = codes "/welcome.html"

refused : codes "/logError.html" ≢ welcome
refused e = ground (arith, e)

sign_in-found :
    (users : Users) (name p given : Bytes)
    → find users name ≡ some p
    → (sign_in users name given ≡ welcome) ↔ (given ≡ p)
unfolding sign_in
sign_in-found users name p given h = elim (Bool-cases (bytes_eq p given)) [
  | inl same ↦ ((λ e. sym (bytes_eq→eq p given same)), λ e. simp (sign_in, h, same))
  | inr other ↦ (
    (λ e. absurd (refused (sym (simp (sign_in, h, other)) ∙ e))),
    (λ e. absurd (true≢false (sym (bytes_eq_refl p) ∙ ap (bytes_eq p) (sym e) ∙ other))),
  )
]

-- Login succeeds exactly for a name that is known, with the password that is kept for it.
pub sign_in_iff :
    (users : Users) (name given : Bytes)
    → (sign_in users name given ≡ codes "/welcome.html") ↔ (find users name ≡ some given)
unfolding sign_in
sign_in_iff users name given = elim (Option-cases (find users name)) [
  | inl h ↦ (
    (λ e. absurd (refused (sym (simp (sign_in, h)) ∙ e))),
    (λ e. absurd (none-ne-some _ (sym h ∙ e))),
  )
  | inr (p, h) ↦
      let (to, from) = sign_in-found users name p given h in
      ((λ e. h ∙ ap some (sym (to e))), (λ e. from (some-injective _ _ (sym e ∙ h))))
]

insert-new :
    (users : Users) (name password : Bytes)
    → find users name ≡ none
    → insert users name password ≡ users ++ (name, password) ∷ []
unfolding insert
insert-new users name password new = rw (insert, new) refl

-- Registration and login agree. For a name that is not known, and a query that fits into its 200 bytes,
-- registration adds the name with its password, and changes nothing for any other name; login with
-- this name then succeeds for just this password. The page that is shown tells whether the database
-- took the name, but it is added either way.
pub sign_up-sign_in :
    (mysql_query : Option ℕ → Bytes → ℕ) (users : Users) (mysql : Option ℕ) (name password : Bytes)
    → length (sql_insert name password) < 200
    → find users name ≡ none
    → (users' : Users) × (sign_up mysql_query users mysql name password
        ≡ done (
          if mysql_query mysql (sql_insert name password) == 0
              then codes "/log.html"
              else codes "/registerError.html",
          users',
        ))
      × ((other : Bytes) → other ≢ name → find users' other ≡ find users other)
      × ((given : Bytes) → (sign_in users' name given ≡ codes "/welcome.html") ↔ (given ≡ password))
unfolding sign_up
sign_up-sign_in mysql_query users mysql name password fits new = (
  users ++ (name, password) ∷ [],
  rw (lt→ltb (length (sql_insert name password)) 200 fits, new, insert-new users name password new)
      refl,
  (λ other ne.
      find-append_other users name password other (elim (Bool-cases (bytes_eq name other)) [
        | inl same ↦ absurd (ne (sym (bytes_eq→eq name other same)))
        | inr h ↦ h
      ])),
  (λ given.
      sign_in-found (users ++ (name, password) ∷ []) name password given
        (find-append users name password new)),
)
