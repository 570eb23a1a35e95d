-- ===== src/Base.antt =====
-- The names that all modules share: the libraries', passed on, and those of the children. A
-- child never uses this module.
pub mod Tests
mod Lists
mod Int
mod Word
mod Text
mod Sequences
pub mod Bits
pub use Tests.*
pub use Lists.*
pub use Int.*
pub use Word.*
pub use Text.*
pub use Sequences.*
pub use Prim.Native.Nat.{ℕ, zero, suc, ◌+◌, ◌-◌, ◌*◌, ◌/◌, ◌%◌, ◌^◌, ◌≤◌, ◌<◌}
pub use mathlib.Core.Path.{◌≡◌, refl, sym, ap, subst, ap₂, ◌∙◌}
pub use mathlib.Core.Logic.{◌≢◌, ◌↔◌, ◌⊎◌, inl, inr}
pub use mathlib.Core.Bool.{Bool, true, false, not, ◌&&◌, ◌||◌}
pub use mathlib.Core.Option.{Option, none, some}
pub use mathlib.Core.List.{List, [], ◌∷◌, ◌++◌, map, append_assoc, append-nil}
unfoldable pub use mathlib.Core.List.{flatten}
pub use native.Mathlib.Omega.{arith}

-- How a call ends: it returns, the process calls `exit`, or the thread waits for a mutex that it
-- holds itself.
pub data Outcome {ℓ} (A : Type ℓ) : Type ℓ where
  done : A → Outcome A
  exited : Outcome A
  deadlock : Outcome A

infixl 5 ◌>>=◌
abbrev pub ◌>>=◌ {ℓ κ} : {A : Type ℓ} {B : Type κ} → Outcome A → (A → Outcome B) → Outcome B
done a >>= f = f a
exited >>= f = exited
deadlock >>= f = deadlock

pub >>=-eq-done {ℓ κ} :
    {A : Type ℓ} {B : Type κ} (m : Outcome A) (f : A → Outcome B) {b : B}
    → (m >>= f) ≡ done b
    → (a : A) × (m ≡ done a) × (f a ≡ done b)
>>=-eq-done (done a) f h = (a, refl, h)
>>=-eq-done exited f h = cc
>>=-eq-done deadlock f h = cc

pub done-injective {ℓ} : {A : Type ℓ} {a b : A} → done a ≡ done b → a ≡ b
done-injective h = cc

-- If a call returns, what it returns has a property.
abbrev pub Whenever {ℓ κ} : {A : Type ℓ} → (A → Type κ) → Outcome A → Type κ
Whenever P (done a) = P a
Whenever P exited = Unit
Whenever P deadlock = Unit

pub >>=-Whenever {ℓ κ μ ν} :
    {A : Type ℓ} {B : Type κ} (P : A → Type μ) (Q : B → Type ν) (m : Outcome A) (f : A → Outcome B)
    → Whenever P m
    → ((a : A) → P a → Whenever Q (f a))
    → Whenever Q (m >>= f)
>>=-Whenever P Q (done a) f p h = h a p
>>=-Whenever P Q exited f p h = tt
>>=-Whenever P Q deadlock f p h = tt

pub Whenever-map {ℓ κ μ} :
    {A : Type ℓ} (P : A → Type κ) (Q : A → Type μ) (m : Outcome A)
    → Whenever P m
    → ((a : A) → P a → Q a)
    → Whenever Q m
Whenever-map P Q (done a) p h = h a p
Whenever-map P Q exited p h = tt
Whenever-map P Q deadlock p h = tt

pub Whenever-done {ℓ κ} :
    {A : Type ℓ} (P : A → Type κ) {m : Outcome A} {a : A} → Whenever P m → m ≡ done a → P a
Whenever-done P p e = subst (Whenever P) e p

-- A call that either returns a value with a property, exactly when a test holds, or ends the process.
pub data Ends {ℓ κ} {A : Type ℓ} (P : A → Type κ) (ok : Bool) (m : Outcome A) : Type (ℓ ⊔ κ) where
  returns : (a : A) → ok ≡ true → m ≡ done a → P a → Ends P ok m
  exits : ok ≡ false → m ≡ exited → Ends P ok m

pub >>=-Ends {ℓ κ μ ν} :
    {A : Type ℓ} {B : Type κ} {P : A → Type μ} {Q : B → Type ν} (a b : Bool) (m : Outcome A)
    (f : A → Outcome B)
    → Ends P a m
    → ((x : A) → P x → Ends Q b (f x))
    → Ends Q (a && b) (m >>= f)
>>=-Ends a b m f (exits e r) h = exits (ap (λ x. x && b) e) (ap (λ x. x >>= f) r)
>>=-Ends a b m f (returns x e r p) h = elim (h x p) [
  | exits e2 r2 ↦ exits (ap₂ (λ x y. x && y) e e2) (ap (λ x. x >>= f) r ∙ r2)
  | returns y e2 r2 q ↦ returns y (ap₂ (λ x y. x && y) e e2) (ap (λ x. x >>= f) r ∙ r2) q
]

pub Ends-weaken {ℓ κ μ} :
    {A : Type ℓ} {P : A → Type κ} {Q : A → Type μ} {ok : Bool} {m : Outcome A}
    → Ends P ok m
    → ((x : A) → P x → Q x)
    → Ends Q ok m
Ends-weaken (exits e r) h = exits e r
Ends-weaken (returns x e r p) h = returns x e r (h x p)

pub Ends-map {ℓ κ μ ν} :
    {A : Type ℓ} {B : Type κ} {P : A → Type μ} {Q : B → Type ν} (ok : Bool) (m : Outcome A)
    (f : A → B)
    → Ends P ok m
    → ((x : A) → P x → Q (f x))
    → Ends Q ok (m >>= (λ x. done (f x)))
Ends-map ok m f (exits e r) h = exits e (ap (λ x. x >>= (λ y. done (f y))) r)
Ends-map ok m f (returns x e r p) h = returns (f x) e (ap (λ y. y >>= (λ z. done (f z))) r) (h x p)

-- A store of objects, by address.
unfoldable pub update {ℓ} : {A : Type ℓ} → (ℕ → A) → ℕ → A → ℕ → A
update f k v j = if j == k then v else f j

pub update_self {ℓ} : {A : Type ℓ} (f : ℕ → A) (k : ℕ) (v : A) → update f k v k ≡ v
unfolding update
update_self f k v = rw (Tests.==_refl k)

pub update_ne {ℓ} :
    {A : Type ℓ} (f : ℕ → A) (k : ℕ) (v : A) (j : ℕ) → ¬ (j ≡ k) → update f k v j ≡ f j
unfolding update
update_ne f k v j h = rw (Tests.ne→eq-false j k h)

abbrev pub All {ℓ κ} : {A : Type ℓ} → (A → Type κ) → List A → Type κ
All P [] = Unit
All P (x ∷ xs) = P x × All P xs

pub All-every {ℓ κ} : {A : Type ℓ} {P : A → Type κ} (xs : List A) → ((a : A) → P a) → All P xs
All-every [] f = tt
All-every (x ∷ xs) f = (f x, All-every xs f)

pub All-map {ℓ κ μ} :
    {A : Type ℓ} {P : A → Type κ} {Q : A → Type μ} (xs : List A)
    → ((a : A) → P a → Q a)
    → All P xs
    → All Q xs
All-map [] f h = tt
All-map (x ∷ xs) f h = (f x h.0, All-map xs f h.1)

pub All-append {ℓ κ} :
    {A : Type ℓ} (P : A → Type κ) (xs ys : List A) → All P xs → All P ys → All P (xs ++ ys)
All-append P [] ys hx hy = hy
All-append P (x ∷ xs) ys hx hy = (hx.0, All-append P xs ys hx.1 hy)

-- What a write of an object with the same feature leaves of that feature.
pub update_keeps {ℓ κ} :
    {A : Type ℓ} {B : Type κ} (feature : A → B) (f : ℕ → A) (k : ℕ) (v : A) (j : ℕ)
    → feature v ≡ feature (f k)
    → feature (update f k v j) ≡ feature (f j)
update_keeps feature f k v j h = elim (Tests.Bool-cases (j == k)) [
  | inl e ↦
      let same : j ≡ k = (Tests.==_iff j k).0 e in rw same (ap feature (update_self f k v) ∙ h)
  | inr e ↦ ap feature (update_ne f k v j (Tests.eq-false→ne j k e))
]

pub All-both {ℓ κ μ ν} :
    {A : Type ℓ} {P : A → Type κ} {Q : A → Type μ} {R : A → Type ν} (xs : List A)
    → ((a : A) → P a → Q a → R a)
    → All P xs
    → All Q xs
    → All R xs
All-both [] f p q = tt
All-both (x ∷ xs) f p q = (f x p.0 q.0, All-both xs f p.1 q.1)

pub Option-cases {ℓ} : {A : Type ℓ} (r : Option A) → (r ≡ none) ⊎ ((a : A) × (r ≡ some a))
Option-cases none = inl refl
Option-cases (some a) = inr (a, refl)

-- A property of both branches of a conditional, each under its test.
pub if_split {ℓ κ} :
    {A : Type ℓ} (P : A → Type κ) (b : Bool) {x y : A}
    → (b ≡ true → P x)
    → (b ≡ false → P y)
    → P (if b then x else y)
if_split P true f g = f refl
if_split P false f g = g refl

-- The same for what is done with an option.
pub option_split {ℓ κ μ} :
    {A : Type ℓ} {B : Type κ} (P : B → Type μ) (r : Option A) {x : B} {f : A → B}
    → P x
    → ((a : A) → P (f a))
    → P (elim r [ none ↦ x | some a ↦ f a ])
option_split P none p h = p
option_split P (some a) p h = h a
