-- ===== src/Http/DoRequest/Fuel.antt =====
-- http/src/http_conn.cpp, do_request: results of its parts, one behind the other.
use my_web_server_cmake.Prelude.{
  if◌then◌else◌, ℕ, ◌+◌, ◌≡◌, refl, Bool, true, false, Option, none, some, length, drop, ◌==◌, ltb,
}
use my_web_server_cmake.Http.Text.{Bytes, index_of}
use my_web_server_cmake.Http.Request.{Run, done, fault, out_of_fuel, strcpy_at, ◌>>=◌}
use my_web_server_cmake.Http.DoRequest.{field, form_fields}

-- A result that does not lack fuel.
abbrev pub HasFuel : {A : Type 0} → Run A → Type 0
HasFuel out_of_fuel = ⊥
HasFuel _ = Unit {0}

pub >>=-HasFuel :
    {A B : Type 0} (r : Run A) (f : A → Run B)
    → HasFuel r
    → ((a : A) → HasFuel (f a))
    → HasFuel (r >>= f)
>>=-HasFuel (done a) f h k = k a
>>=-HasFuel fault f h k = tt
>>=-HasFuel out_of_fuel f h k = h

pub if-HasFuel :
    {A : Type 0} (b : Bool) (x y : Run A) → HasFuel x → HasFuel y → HasFuel (if b then x else y)
if-HasFuel true x y h k = h
if-HasFuel false x y h k = k

pub option-HasFuel :
    {A B : Type 0} (o : Option A) (f : A → Run B)
    → ((a : A) → HasFuel (f a))
    → HasFuel (elim o as (λ x. Run B) [ none ↦ fault | some a ↦ f a ])
option-HasFuel none f k = tt
option-HasFuel (some a) f k = k a

pub either-HasFuel :
    {A B : Type 0} (o : Option A) (x : B) (y : A → B)
    → HasFuel (elim o as (λ x. Run B) [ none ↦ done x | some a ↦ done (y a) ])
either-HasFuel none x y = tt
either-HasFuel (some a) x y = tt

pub strcpy_at-HasFuel : (b : Bytes) (i : ℕ) (s : Bytes) → HasFuel (strcpy_at b i s)
unfolding strcpy_at
strcpy_at-HasFuel b i s = if-HasFuel (ltb (i + length s) (length b)) _ _ tt tt

pub field-HasFuel : (b : Bytes) (i stop : ℕ) → HasFuel (field b i stop)
unfolding field
field-HasFuel b i stop =
    option-HasFuel (index_of (λ x. x == stop) (drop i b)) _ (λ k. if-HasFuel (ltb k 100) _ _ tt tt)

pub form_fields-HasFuel : (b : Bytes) (text : ℕ) → HasFuel (form_fields b text)
unfolding form_fields
form_fields-HasFuel b text =
    >>=-HasFuel (field b (text + 5) 38) _ (field-HasFuel b (text + 5) 38) (λ r.
      >>=-HasFuel (field b (text + 5 + r.0 + 10) 0) _ (field-HasFuel b (text + 5 + r.0 + 10) 0)
        (λ q. tt))

pub if-same : {A : Type 0} (b : Bool) (x : A) → (if b then x else x) ≡ x
if-same true x = refl
if-same false x = refl

pub bind-fault :
    {A B : Type 0} (r : Run A) (f : A → Run B)
    → HasFuel r
    → ((a : A) → f a ≡ fault)
    → (r >>= f) ≡ fault
bind-fault (done a) f h k = k a
bind-fault fault f h k = refl
bind-fault out_of_fuel f h k = absurd h
