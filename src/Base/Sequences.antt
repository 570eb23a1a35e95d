-- ===== src/Base/Sequences.antt =====
-- Sequences of steps of a relation.

-- Any number of steps, one behind the other.
pub data Star {ℓ κ} {A : Type ℓ} (R : A → A → Type κ) (a : A) : A → Type (ℓ ⊔ κ) where
  stop : Star R a a
  go : {b c : A} → Star R a b → R b c → Star R a c

pub Star-trans {ℓ κ} :
    {A : Type ℓ} {R : A → A → Type κ} {a b c : A} → Star R a b → Star R b c → Star R a c
Star-trans p stop = p
Star-trans p (go q r) = go (Star-trans p q) r

-- What every step keeps, any number of steps keeps.
pub Star-keeps {ℓ κ μ} :
    {A : Type ℓ} {R : A → A → Type κ} (P : A → Type μ) {a b : A}
    → ((x y : A) → R x y → P x → P y)
    → Star R a b
    → P a
    → P b
Star-keeps P h stop p = p
Star-keeps P h (go {b} {c} q r) p = h b c r (Star-keeps P h q p)

-- A sequence of steps, each of which is a sequence of steps of another relation between views.
pub Star-bind {ℓ κ μ ν} :
    {A : Type ℓ} {B : Type μ} {R : A → A → Type κ} {Q : B → B → Type ν} (view : A → B) {a b : A}
    → ((x y : A) → R x y → Star Q (view x) (view y))
    → Star R a b
    → Star Q (view a) (view b)
Star-bind view h stop = stop
Star-bind view h (go {b} {c} q r) = Star-trans (Star-bind view h q) (h b c r)
