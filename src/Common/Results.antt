-- ===== src/Common/Results.antt =====
-- Rust's `Result` and `?`.
use mathlib.Core.Path.{◌≡◌, refl, ap}
use mathlib.Core.Logic.{◌⊎◌, inl, inr}
use mathlib.Core.Option.{Option, none, some}
use mathlib.Core.Bool.{Bool, true, false}
use shell_chain_specs.Common.Tests.{if◌then◌else◌}

pub data Result {ℓ κ} (A : Type ℓ) (E : Type κ) : Type (ℓ ⊔ κ) where
  ok : A → Result A E
  err : E → Result A E

infixl 5 ◌>>◌ ◌>>=◌
abbrev pub ◌>>=◌ {ε α β} :
    {E : Type ε} {A : Type α} {B : Type β} → Result A E → (A → Result B E) → Result B E
err reason >>= next = err reason
ok value >>= next = next value

-- A check, and what follows it.
abbrev pub ◌>>◌ {ε β} : {E : Type ε} {B : Type β} → Result (Unit {0}) E → Result B E → Result B E
check >> next = check >>= λ passed. next

-- `map_err(f)?`, and the conversion that `?` makes through `From`.
abbrev pub map_err {ℓ κ ι} :
    {A : Type ℓ} {E : Type κ} {F : Type ι} → (E → F) → Result A E → Result A F
map_err f (ok a) = ok a
map_err f (err e) = err (f e)

abbrev pub map_ok {ℓ κ ι} :
    {A : Type ℓ} {B : Type κ} {E : Type ι} → (A → B) → Result A E → Result B E
map_ok f (ok a) = ok (f a)
map_ok f (err e) = err e

abbrev pub ok_or {ℓ κ} : {A : Type ℓ} {E : Type κ} → Option A → E → Result A E
ok_or none e = err e
ok_or (some a) e = ok a

-- A step that gives back its state beside its result, and what follows it when it succeeds.
abbrev pub chain {ε α β σ} :
    {E : Type ε} {A : Type α} {B : Type β} {S : Type σ}
    → Result A E × S
    → (A → S → Result B E × S)
    → Result B E × S
chain (ok value, state) next = next value state
chain (err reason, state) next = (err reason, state)

pub Result-cases {ℓ κ} :
    {A : Type ℓ} {E : Type κ} (r : Result A E) → ((a : A) × (r ≡ ok a)) ⊎ ((e : E) × (r ≡ err e))
Result-cases (ok a) = inl (a, refl)
Result-cases (err e) = inr (e, refl)

-- A chain that succeeds has a first step that does.
pub >>=-eq-ok {ε α β} :
    {E : Type ε} {A : Type α} {B : Type β} (first : Result A E) (next : A → Result B E) {result : B}
    → (first >>= next) ≡ ok result
    → (value : A) × (first ≡ ok value) × (next value ≡ ok result)
>>=-eq-ok (err reason) next succeeds = cc
>>=-eq-ok (ok value) next succeeds = (value, refl, succeeds)

pub map_err-eq-ok {ℓ κ ι} :
    {A : Type ℓ} {E : Type κ} {F : Type ι} (f : E → F) (m : Result A E) {a : A}
    → map_err f m ≡ ok a
    → m ≡ ok a
map_err-eq-ok f (ok b) h = cc
map_err-eq-ok f (err e) h = cc

pub ok_or-eq-ok {ℓ κ} :
    {A : Type ℓ} {E : Type κ} (o : Option A) (e : E) {a : A} → ok_or o e ≡ ok a → o ≡ some a
ok_or-eq-ok none e h = cc
ok_or-eq-ok (some b) e h = cc

pub ok-injective {ℓ κ} :
    {A : Type ℓ} {E : Type κ} {a b : A} → ◌≡◌ {A = Result A E} (ok a) (ok b) → a ≡ b
ok-injective h = cc

pub if_ok {ℓ κ} :
    {A : Type ℓ} {E : Type κ} (b : Bool) (r : Result A E) (e : E) {a : A}
    → (if b then r else err e) ≡ ok a
    → (b ≡ true) × (r ≡ ok a)
if_ok true r e h = (refl, h)
if_ok false r e h = cc

pub if_err {ℓ κ} :
    {A : Type ℓ} {E : Type κ} (b : Bool) (r : Result A E) (e : E) {a : A}
    → (if b then err e else r) ≡ ok a
    → (b ≡ false) × (r ≡ ok a)
if_err true r e h = cc
if_err false r e h = (refl, h)

-- A chain of steps that succeeds has a first step that does, and the rest succeeds from its state.
pub chain-eq-ok {ε α β σ} :
    {E : Type ε} {A : Type α} {B : Type β} {S : Type σ} (first : Result A E × S)
    (next : A → S → Result B E × S) {result : B} {final : S}
    → chain first next ≡ (ok result, final)
    → (value : A) × (state : S) × (first ≡ (ok value, state))
      × (next value state ≡ (ok result, final))
chain-eq-ok (ok value, state) next succeeds = (value, state, refl, succeeds)
chain-eq-ok (err reason, state) next succeeds = absurd (cc (ap (λ x. x.0) succeeds))
