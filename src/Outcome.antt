-- ===== src/Outcome.antt =====
-- Code that panics, returns an error, or returns a value.
use stwo.Prelude.{Bool, true, false, Option, none, some, ◌≡◌, refl}

pub data Outcome (E A : Type 0) : Type 0 where
  panic : Outcome E A
  err : E → Outcome E A
  ok : A → Outcome E A

-- The operator `?`, where a panic goes on as well.
infixl 5 ◌>>=◌ ◌>>◌
abbrev pub ◌>>=◌ : {E V W : Type 0} → Outcome E V → (V → Outcome E W) → Outcome E W
panic >>= next = panic
err reason >>= next = err reason
ok value >>= next = next value

abbrev pub ◌>>◌ : {E W : Type 0} → Outcome E (Unit {0}) → Outcome E W → Outcome E W
first >> second = first >>= λ done. second

-- `assert!`.
abbrev pub assert : {E : Type 0} → Bool → Outcome E (Unit {0})
assert false = panic
assert true = ok tt

-- `if !test { return Err(reason); }`.
abbrev pub guard : {E : Type 0} → Bool → E → Outcome E (Unit {0})
guard test reason = elim test [ false ↦ err reason | true ↦ ok tt ]

abbrev pub unwrap : {E V : Type 0} → Option V → Outcome E V
unwrap none = panic
unwrap (some value) = ok value

abbrev pub ok_or : {E V : Type 0} → Option V → E → Outcome E V
ok_or none reason = err reason
ok_or (some value) reason = ok value

abbrev pub map_err : {E E' V : Type 0} → (E → E') → Outcome E V → Outcome E' V
map_err convert panic = panic
map_err convert (err reason) = err (convert reason)
map_err convert (ok value) = ok value

-- The value that a chain which succeeds passes on.
pub >>=-eq-ok :
    {E V W : Type 0} (first : Outcome E V) (next : V → Outcome E W) {result : W}
    → (first >>= next) ≡ ok result
    → (value : V) × (first ≡ ok value) × (next value ≡ ok result)
>>=-eq-ok panic next h = cc
>>=-eq-ok (err reason) next h = cc
>>=-eq-ok (ok value) next h = (value, refl, h)

-- What a step that succeeds has found.
pub unwrap-eq-ok :
    {E V : Type 0} (o : Option V) {value : V} → unwrap {E = E} o ≡ ok value → o ≡ some value
unwrap-eq-ok none h = cc
unwrap-eq-ok (some v) h = cc

pub ok_or-eq-ok :
    {E V : Type 0} (o : Option V) (reason : E) {value : V}
    → ok_or o reason ≡ ok value
    → o ≡ some value
ok_or-eq-ok none reason h = cc
ok_or-eq-ok (some v) reason h = cc

pub guard-eq-ok : {E : Type 0} (test : Bool) (reason : E) → guard test reason ≡ ok tt → test ≡ true
guard-eq-ok false reason h = cc
guard-eq-ok true reason h = refl

pub assert-eq-ok : {E : Type 0} (test : Bool) → assert {E = E} test ≡ ok tt → test ≡ true
assert-eq-ok false h = cc
assert-eq-ok true h = refl

pub ok_inj : {E V : Type 0} {a b : V} → ◌≡◌ {A = Outcome E V} (ok a) (ok b) → a ≡ b
ok_inj h = cc

pub map_err-eq-ok :
    {E E' V : Type 0} (convert : E → E') (o : Outcome E V) {value : V}
    → map_err convert o ≡ ok value
    → o ≡ ok value
map_err-eq-ok convert panic h = cc
map_err-eq-ok convert (err reason) h = cc
map_err-eq-ok convert (ok v) h = cc
