-- ===== src/Http/DoRequest/Form.antt =====
-- The form in the body of a login or a registration.
use my_web_server_cmake.Prelude.{
  ℕ, ◌+◌, ◌≤◌, ◌<◌, ◌≡◌, ◌≢◌, arith, refl, ◌∙◌, ap, sym, false, some, [], ◌∷◌, ◌++◌, length, take,
  drop, ◌==◌, ==_iff, lt→ltb, ltb_of_le, append_assoc, length-append,
}
use my_web_server_cmake.Http.Text.{Bytes, codes, until_nul, index_of}
use my_web_server_cmake.Http.Text.Words.{All, NoNul, drop-append, take-append, index_of-append}
use my_web_server_cmake.Http.Request.{done, fault}
use my_web_server_cmake.Http.DoRequest.{field, form_fields}

-- A body `user=name&password=password`, with a NUL behind it.
abbrev pub form : (name password rest : Bytes) → Bytes
form name password rest = codes "user=" ++ (name ++ (codes "&password=" ++ (password ++ 0 ∷ rest)))

ne-All : (stop : ℕ) (text : Bytes) → All (λ x. x ≢ stop) text → All (λ x. (x == stop) ≡ false) text
ne-All stop [] h = tt
ne-All stop (x ∷ text) h = (ground (arith, h.0), ne-All stop text h.1)

until_nul-NoNul : (s : Bytes) → NoNul s → until_nul s ≡ s
unfolding until_nul
until_nul-NoNul [] h = refl
until_nul-NoNul (x ∷ s) h = ground (arith, until_nul-NoNul s h.1)

module _ (before text rest : Bytes) (i stop : ℕ) (e : i ≡ length before)
    (free : All (λ x. x ≢ stop) text) where
  behind : drop i (before ++ (text ++ stop ∷ rest)) ≡ text ++ stop ∷ rest
  behind = drop-append before (text ++ stop ∷ rest) i e

  found : index_of (λ x. x == stop) (text ++ stop ∷ rest) ≡ some (length text)
  found =
      index_of-append (λ x. x == stop) text rest stop (ne-All stop text free)
        ((==_iff stop stop).1 refl)

  -- The text in front of a stop that it does not hold.
  field-text :
      length text < 100 → field (before ++ (text ++ stop ∷ rest)) i stop ≡ done (length text, text)
  unfolding field
  field-text fits =
      rw (field, behind, found, lt→ltb (length text) 100 fits)
        (ap (λ t. done (length text, t))
          (ap (take (length text)) behind ∙ take-append text (stop ∷ rest)))

  field-long : 100 ≤ length text → field (before ++ (text ++ stop ∷ rest)) i stop ≡ fault
  unfolding field
  field-long long = rw (field, behind, found, ltb_of_le (length text) 100 long) refl

-- The fields of a form are found. For a body `user=name&password=password` with a NUL behind it, whose
-- name has no `&`, and whose name and password have fewer than 100 bytes and no NUL, the name and the
-- password are just these.
pub form_fields-form :
    (before name password rest : Bytes)
    → NoNul name × All (λ x. x ≢ 38) name × NoNul password
    → (length name < 100) × (length password < 100)
    → form_fields (before ++ form name password rest) (length before) ≡ done (name, password)
unfolding form_fields
form_fields-form before name password rest (plain, free, plain') (fits, fits') =
    rw (first, second) (ap (λ n. done (n, password)) (until_nul-NoNul name plain))
  where
    prefix : Bytes
    prefix = before ++ codes "user="

    prefix' : Bytes
    prefix' = prefix ++ (name ++ codes "&password=")

    first :
        field (before ++ form name password rest) (length before + 5) 38 ≡ done (length name, name)
    first =
        ap (λ b. field b (length before + 5) 38)
          (sym (
            append_assoc before (codes "user=")
              (name ++ (codes "&password=" ++ (password ++ 0 ∷ rest)))))
        ∙ field-text prefix name (codes "password=" ++ (password ++ 0 ∷ rest)) (length before + 5)
            38 (omega (arith, length-append before (codes "user="))) free fits

    regroup : before ++ form name password rest ≡ prefix' ++ (password ++ 0 ∷ rest)
    regroup =
        sym (
          append_assoc before (codes "user=")
            (name ++ (codes "&password=" ++ (password ++ 0 ∷ rest))))
        ∙ ap (◌++◌ prefix) (sym (append_assoc name (codes "&password=") (password ++ 0 ∷ rest)))
        ∙ sym (append_assoc prefix (name ++ codes "&password=") (password ++ 0 ∷ rest))

    second :
        field (before ++ form name password rest) (length before + 5 + length name + 10) 0
        ≡ done (length password, password)
    second =
        ap (λ b. field b (length before + 5 + length name + 10) 0) regroup
        ∙ field-text prefix' password rest (length before + 5 + length name + 10) 0
            (omega (
              arith,
              length-append before (codes "user="),
              length-append prefix (name ++ codes "&password="),
              length-append name (codes "&password="),
            ))
            plain' fits'

-- A long name overruns its array. A form whose name has 100 bytes or more in front of the `&` makes
-- do_request write behind `char name[100]`.
pub form_fields-long_name :
    (before name password rest : Bytes)
    → All (λ x. x ≢ 38) name
    → 100 ≤ length name
    → form_fields (before ++ form name password rest) (length before) ≡ fault
unfolding form_fields
form_fields-long_name before name password rest free long = rw first refl
  where
    first : field (before ++ form name password rest) (length before + 5) 38 ≡ fault
    first =
        ap (λ b. field b (length before + 5) 38)
          (sym (
            append_assoc before (codes "user=")
              (name ++ (codes "&password=" ++ (password ++ 0 ∷ rest)))))
        ∙ field-long (before ++ codes "user=") name (codes "password=" ++ (password ++ 0 ∷ rest))
            (length before + 5) 38 (omega (arith, length-append before (codes "user="))) free long
