-- ===== src/Base/Results.antt =====
-- The exceptions of the library (kernel.hpp, lines 22 to 24) as values, and chains of checks.
use mathlib.Core.Path.{◌≡◌, refl}
use mathlib.Core.Logic.{◌⊎◌, inl, inr}
use cogg_cpp.Base.Tests.{if◌then◌else◌}
use mathlib.Core.Bool.{Bool, true, false}
use mathlib.Core.Option.{Option, none, some}
use Prim.Native.String.{String}

-- `Error`, and its subclasses `ContextOverflow` and `Conflict`.
pub data Failure : Type 0 where
  error : String → Failure
  overflow : String → Failure
  conflict : String → Failure

pub data Result {ℓ} (A : Type ℓ) : Type ℓ where
  ok : A → Result A
  err : Failure → Result A

-- A thrown exception skips the rest of the call.
infixl 5 ◌>>=◌
abbrev pub ◌>>=◌ {ℓ κ} : {A : Type ℓ} {B : Type κ} → Result A → (A → Result B) → Result B
err failure >>= next = err failure
ok value >>= next = next value

-- A check before the rest of the call.
infixl 5 ◌>>◌
abbrev pub ◌>>◌ {κ} : {B : Type κ} → Result (Unit {0}) → Result B → Result B
check >> rest = check >>= (λ done. rest)

-- require(ok, message)
abbrev pub require : Bool → String → Result (Unit {0})
require true message = ok tt
require false message = err (error message)

-- A row that a query must return.
abbrev pub require_row {ℓ} : {A : Type ℓ} → Option A → String → Result A
require_row none message = err (error message)
require_row (some a) message = ok a

-- if (!ok) throw Conflict(message)
abbrev pub no_conflict : Bool → String → Result (Unit {0})
no_conflict true message = ok tt
no_conflict false message = err (conflict message)

pub require-eq-ok : (b : Bool) (m : String) → require b m ≡ ok tt → b ≡ true
require-eq-ok true m h = refl
require-eq-ok false m h = cc

-- A call that returned returned from its first part, and went on from there.
pub >>=-eq-ok {κ μ} :
    {R : Type κ} {S : Type μ} {last : S} (call : Result R) (next : R → Result S)
    → call >>= next ≡ ok last
    → (first : R) × (call ≡ ok first) × (next first ≡ ok last)
>>=-eq-ok (err failure) next returned = cc
>>=-eq-ok (ok first) next returned = (first, refl, returned)

-- What a chain that returned went through, one step at a time.
pub require-bind {ℓ} :
    {A : Type ℓ} (b : Bool) (m : String) (k : Result A) {x : A}
    → (require b m >> k) ≡ ok x
    → (b ≡ true) × (k ≡ ok x)
require-bind true m k h = (refl, h)
require-bind false m k h = cc

pub no_conflict-bind {ℓ} :
    {A : Type ℓ} (b : Bool) (m : String) (k : Result A) {x : A}
    → (no_conflict b m >> k) ≡ ok x
    → (b ≡ true) × (k ≡ ok x)
no_conflict-bind true m k h = (refl, h)
no_conflict-bind false m k h = cc

pub check-bind {ℓ} :
    {A : Type ℓ} (c : Result (Unit {0})) (k : Result A) {x : A}
    → (c >> k) ≡ ok x
    → (c ≡ ok tt) × (k ≡ ok x)
check-bind (ok u) k h = (refl, h)
check-bind (err e) k h = cc

pub guard-bind {ℓ} :
    {A : Type ℓ} (b : Bool) (f : Failure) (k : Result A) {x : A}
    → ((if b then ok tt else err f) >> k) ≡ ok x
    → (b ≡ true) × (k ≡ ok x)
guard-bind true f k h = (refl, h)
guard-bind false f k h = cc

pub row-bind {ℓ κ} :
    {A : Type ℓ} {B : Type κ} (o : Option A) (m : String) (f : A → Result B) {x : B}
    → (require_row o m >>= f) ≡ ok x
    → (a : A) × (o ≡ some a) × (f a ≡ ok x)
row-bind none m f h = cc
row-bind (some a) m f h = (a, refl, h)

pub ok-first {ℓ} :
    {A B : Type ℓ} (a a' : A) (b b' : B)
    → ◌≡◌ {A = Result (A × B)} (ok (a, b)) (ok (a', b'))
    → a ≡ a'
ok-first a a' b b' e = cc

pub ok-injective {ℓ} : {A : Type ℓ} (a b : A) → ok a ≡ ok b → a ≡ b
ok-injective a b e = cc

pub if-cases {ℓ} :
    {A : Type ℓ} (b : Bool) (x y : Result A) {z : A}
    → (if b then x else y) ≡ ok z
    → ((b ≡ true) × (x ≡ ok z)) ⊎ ((b ≡ false) × (y ≡ ok z))
if-cases true x y e = inl (refl, e)
if-cases false x y e = inr (refl, e)
