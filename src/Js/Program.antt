-- ===== src/Js/Program.antt =====
-- Code that calls libraries which are not part of the repository (BullMQ, ioredis, Node-RED): a tree
-- of calls. `call c k` makes the call `c` and goes on with `k` at the reply, which the environment
-- chooses; `done` returns or throws. What holds of a tree holds whatever the libraries answer.
use node_red_contrib_bull.Prelude.{◌≡◌, refl, List, [], ◌∷◌, ◌++◌, Bool, true, false, if◌then◌else◌}
use node_red_contrib_bull.Js.Value.{Value, Result, ok, err}

pub data Program (C R A : Type 0) : Type 0 where
  done : Result A → Program C R A
  call : C → (R → Program C R A) → Program C R A

-- Every call that a program can make, under any replies, satisfies `P`.
pub data Calls {C R A : Type 0} (P : C → Type 0) : Program C R A → Type 0 where
  over : {r : Result A} → Calls P (done r)
  first : {c : C} {k : R → Program C R A} → P c → ((r : R) → Calls P (k r)) → Calls P (call c k)

-- Every value that a program can return, under any replies, satisfies `P`.
pub data Yields {C R A : Type 0} (P : A → Type 0) : Program C R A → Type 0 where
  yields : {a : A} → P a → Yields P (done (ok a))
  raises : {e : Value} → Yields P (done (err e))
  later : {c : C} {k : R → Program C R A} → ((r : R) → Yields P (k r)) → Yields P (call c k)

module _ {C R : Type 0} where
  infixl 5 ◌>>=◌ ◌>>◌
  -- A value that is thrown skips what follows.
  unfoldable pub ◌>>=◌ : {A B : Type 0} → Program C R A → (A → Program C R B) → Program C R B
  done (ok a) >>= f = f a
  done (err e) >>= f = done (err e)
  call c k >>= f = call c (λ r. k r >>= f)

  abbrev pub ◌>>◌ : {A B : Type 0} → Program C R A → Program C R B → Program C R B
  m >> k = m >>= λ _. k

  abbrev pub pure : {A : Type 0} → A → Program C R A
  pure a = done (ok a)

  -- `try { m } catch (e) { handler(e) }`, also over what the try block returns.
  unfoldable pub on_result :
      {A B : Type 0} → Program C R A → (Result A → Program C R B) → Program C R B
  on_result (done r) f = f r
  on_result (call c k) f = call c (λ r. on_result (k r) f)

  -- The run in which `env` replies makes these calls, in this order, and returns this value.
  pub data Runs {A : Type 0} (env : C → R) : Program C R A → List C → A → Type 0 where
    returns : {a : A} → Runs env (done (ok a)) [] a
    calls :
        {c : C} {k : R → Program C R A} {cs : List C} {a : A}
        → Runs env (k (env c)) cs a
        → Runs env (call c k) (c ∷ cs) a

  pub Runs->>= :
      {A B : Type 0} {env : C → R} {m : Program C R A} (f : A → Program C R B) {cs ds : List C}
      {a : A} {b : B}
      → Runs env m cs a
      → Runs env (f a) ds b
      → Runs env (m >>= f) (cs ++ ds) b
  unfolding ◌>>=◌
  Runs->>= f returns h = h
  Runs->>= f (calls g) h = calls (Runs->>= f g h)

  pub Calls->>= :
      {A B : Type 0} {P : C → Type 0} {m : Program C R A} {f : A → Program C R B}
      → Calls P m
      → ((a : A) → Calls P (f a))
      → Calls P (m >>= f)
  unfolding ◌>>=◌
  Calls->>= (over {r = ok a}) k = k a
  Calls->>= (over {r = err e}) k = over
  Calls->>= (first p h) k = first p (λ r. Calls->>= (h r) k)

  pub Calls-on_result :
      {A B : Type 0} {P : C → Type 0} {m : Program C R A} {f : Result A → Program C R B}
      → Calls P m
      → ((a : Result A) → Calls P (f a))
      → Calls P (on_result m f)
  unfolding on_result
  Calls-on_result (over {r = a}) k = k a
  Calls-on_result (first p h) k = first p (λ r. Calls-on_result (h r) k)

  pub Calls-if :
      {A : Type 0} {P : C → Type 0} (b : Bool) {x y : Program C R A}
      → Calls P x
      → Calls P y
      → Calls P (if b then x else y)
  Calls-if true h k = h
  Calls-if false h k = k

  pub Calls-test :
      {A : Type 0} {P : C → Type 0} (b : Bool) {x y : Program C R A}
      → (b ≡ true → Calls P x)
      → (b ≡ false → Calls P y)
      → Calls P (if b then x else y)
  Calls-test true h k = h refl
  Calls-test false h k = k refl

  -- What the calls satisfy may be weakened.
  pub Calls-mono :
      {A : Type 0} {P Q : C → Type 0} {m : Program C R A}
      → ((c : C) → P c → Q c)
      → Calls P m
      → Calls Q m
  Calls-mono w over = over
  Calls-mono w (first p h) = first (w _ p) (λ r. Calls-mono w (h r))

  pub Yields->>= :
      {A B : Type 0} {P : B → Type 0} (m : Program C R A) (f : A → Program C R B)
      → ((a : A) → Yields P (f a))
      → Yields P (m >>= f)
  unfolding ◌>>=◌
  Yields->>= (done (ok a)) f h = h a
  Yields->>= (done (err e)) f h = raises
  Yields->>= (call c k) f h = later (λ r. Yields->>= (k r) f h)

  pub Yields-if :
      {A : Type 0} {P : A → Type 0} (b : Bool) {x y : Program C R A}
      → Yields P x
      → Yields P y
      → Yields P (if b then x else y)
  Yields-if true h k = h
  Yields-if false h k = k
