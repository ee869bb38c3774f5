-- ===== src/Js/Results.antt =====
-- What a result satisfies if it returns: `Returns P` goes through chains and guards.
use node_red_contrib_bull.Prelude.{◌≡◌, refl, Bool, true, false, if◌then◌else◌, subst}
use node_red_contrib_bull.Js.Value.{Value, Result, ok, err, ◌>>=◌}

-- `P` holds of what is returned; a result that throws satisfies every `P`.
pub data Returns {ℓ κ} {A : Type ℓ} (P : A → Type κ) : Result A → Type (ℓ ⊔ κ) where
  returned : {a : A} → P a → Returns P (ok a)
  thrown : {e : Value} → Returns P (err e)

module _ {ℓ κ} {A : Type ℓ} {P : A → Type κ} where
  pub Returns-elim : {a : A} → Returns P (ok a) → P a
  Returns-elim (returned p) = p

  pub Returns-of : (r : Result A) → ((a : A) → r ≡ ok a → P a) → Returns P r
  Returns-of (ok a) h = returned (h a refl)
  Returns-of (err e) h = thrown

  pub Returns-at : {r : Result A} (a : A) → Returns P r → r ≡ ok a → P a
  Returns-at a h same = Returns-elim (subst (Returns P) same h)

  pub Returns-if :
      (b : Bool) {x y : Result A} → Returns P x → Returns P y → Returns P (if b then x else y)
  Returns-if true h k = h
  Returns-if false h k = k

  -- The branch that is taken knows what the test gave.
  pub Returns-test :
      (b : Bool) {x y : Result A}
      → (b ≡ true → Returns P x)
      → (b ≡ false → Returns P y)
      → Returns P (if b then x else y)
  Returns-test true h k = h refl
  Returns-test false h k = k refl

-- A chain returns what its last step returns, and its last step knows what the first returned.
pub Returns->>= {ℓ κ ι} :
    {A : Type ℓ} {B : Type κ} {P : B → Type ι} (m : Result A) {f : A → Result B}
    → ((a : A) → m ≡ ok a → Returns P (f a))
    → Returns P (m >>= f)
Returns->>= (ok a) h = h a refl
Returns->>= (err e) h = thrown

-- The same, with what the first step satisfies.
pub Returns-bind {ℓ κ ι μ} :
    {A : Type ℓ} {B : Type κ} {Q : A → Type μ} {P : B → Type ι} {m : Result A} {f : A → Result B}
    → Returns Q m
    → ((a : A) → Q a → Returns P (f a))
    → Returns P (m >>= f)
Returns-bind (returned q) h = h _ q
Returns-bind thrown h = thrown
