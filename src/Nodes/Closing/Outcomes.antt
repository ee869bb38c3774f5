-- ===== src/Nodes/Closing/Outcomes.antt =====
-- What `done` of the configuration node of bull-queue.js is called with.
use node_red_contrib_bull.Prelude.{
  Bool, true, false, ℕ, ◌≤◌, ◌≡◌, refl, List, [], ◌∷◌, arith, leb, if◌then◌else◌, All, Some,
  All-implies, inl, inr, ◌⊎◌,
}
use node_red_contrib_bull.Js.Value.{Value, ok, err}
use node_red_contrib_bull.Nodes.Shutdown.{Delays}
use node_red_contrib_bull.Nodes.Resources.{Tracked, Server, all_reversed}
use node_red_contrib_bull.Nodes.Closing.{
  World, Settled, and_settled, finish_close, closed_pair, all_closed, close_server,
}

-- What a promise comes to: fulfilled by a time; and not rejected before a time.
abbrev FulfilledBy : ℕ → Settled → Type 0
FulfilledBy at (ok u, t) = t ≤ at
FulfilledBy at (err e, t) = ⊥

abbrev QuietUntil : ℕ → Settled → Type 0
QuietUntil at (ok u, t) = Unit
QuietUntil at (err e, t) = at ≤ t

fulfilled_later : (at last : ℕ) (a : Settled) → at ≤ last → FulfilledBy at a → FulfilledBy last a
fulfilled_later at last (ok u, t) h k = omega arith
fulfilled_later at last (err e, t) h k = k

fulfilled_quiet : (at last : ℕ) (a : Settled) → FulfilledBy last a → QuietUntil at a
fulfilled_quiet at last (ok u, t) h = tt
fulfilled_quiet at last (err e, t) h = absurd h

quiet_earlier : (at first : ℕ) (a : Settled) → at ≤ first → QuietUntil first a → QuietUntil at a
quiet_earlier at first (ok u, t) h k = tt
quiet_earlier at first (err e, t) h k = omega arith

module _ (P : Tracked → Type 0) where
  reversed-All : (ts acc : List Tracked) → All P (all_reversed ts acc) → All P ts × All P acc
  reversed-All [] acc h = (tt, h)
  reversed-All (t ∷ ts) acc h =
      let (rest, (p, before)) = reversed-All ts (t ∷ acc) h in ((p, rest), before)

  reversed-Some : (ts acc : List Tracked) → Some P (all_reversed ts acc) → Some P ts ⊎ Some P acc
  reversed-Some [] acc h = inr h
  reversed-Some (t ∷ ts) acc h = elim (reversed-Some ts (t ∷ acc) h) [
    | inl found ↦ inl (inr found)
    | inr (inl here) ↦ inl (inl here)
    | inr (inr before) ↦ inr before
  ]

only_left : {A : Type 0} → A ⊎ ⊥ → A
only_left (inl a) = a
only_left (inr h) = absurd h

module _ (close : Tracked → Settled) where
  -- A close of all entries that gives no error ends when all have closed; one that gives an error ends with
  -- the first error.
  abbrev pub Awaited : Settled → List Tracked → Type 0
  Awaited (ok u, at) ts = All (λ t. FulfilledBy at (close t)) ts
  Awaited (err e, at) ts =
      Some (λ t. close t ≡ (err e, at)) ts × All (λ t. QuietUntil at (close t)) ts

  later-All :
      (at last : ℕ) (ts : List Tracked)
      → at ≤ last
      → All (λ t. FulfilledBy at (close t)) ts
      → All (λ t. FulfilledBy last (close t)) ts
  later-All at last ts h =
      All-implies (λ t. FulfilledBy at (close t)) (λ t. FulfilledBy last (close t)) ts
        (λ t. fulfilled_later at last (close t) h)

  earlier-All :
      (at first : ℕ) (ts : List Tracked)
      → at ≤ first
      → All (λ t. QuietUntil first (close t)) ts
      → All (λ t. QuietUntil at (close t)) ts
  earlier-All at first ts h =
      All-implies (λ t. QuietUntil first (close t)) (λ t. QuietUntil at (close t)) ts
        (λ t. quiet_earlier at first (close t) h)

  quiet-All :
      (at last : ℕ) (ts : List Tracked)
      → All (λ t. FulfilledBy last (close t)) ts
      → All (λ t. QuietUntil at (close t)) ts
  quiet-All at last ts =
      All-implies (λ t. FulfilledBy last (close t)) (λ t. QuietUntil at (close t)) ts
        (λ t. fulfilled_quiet at last (close t))

  two_errors :
      (t : Tracked) (ts : List Tracked) (e f : Value) (at first : ℕ) (before : Bool)
      → close t ≡ (err e, at)
      → Awaited (err f, first) ts
      → (before ≡ true → at ≤ first)
      → (before ≡ false → first ≤ at)
      → Awaited (if before then (err e, at) else (err f, first)) (t ∷ ts)
  two_errors t ts e f at first true same h soon late =
      (inl same, (rw same (omega arith), earlier-All at first ts (soon refl) h.1))
  two_errors t ts e f at first false same h soon late = (inr h.0, (rw same (late refl), h.1))

  and_settled-Awaited :
      (t : Tracked) (ts : List Tracked) (a b : Settled)
      → close t ≡ a
      → Awaited b ts
      → Awaited (and_settled a b) (t ∷ ts)
  and_settled-Awaited t ts (ok u, at) (ok w, last) same h = (
    rw same (ground arith),
    later-All last (if leb at last then last else at) ts (ground arith) h,
  )
  and_settled-Awaited t ts (ok u, at) (err e, first) same h = (inr h.0, (rw same tt, h.1))
  and_settled-Awaited t ts (err e, at) (ok w, last) same h =
      (inl same, (rw same (omega arith), quiet-All at last ts h))
  and_settled-Awaited t ts (err e, at) (err f, first) same h =
      two_errors t ts e f at first (leb at first) same h (λ p. ground arith) (λ p. ground arith)

  -- What holds of the entries in reverse order holds of them in order.
  in_order : (ts : List Tracked) (a : Settled) → Awaited a (all_reversed ts []) → Awaited a ts
  in_order ts (ok u, at) h = (reversed-All _ ts [] h).0
  in_order ts (err e, at) h = (only_left (reversed-Some _ ts [] h.0), (reversed-All _ ts [] h.1).0)

all_closed-Awaited :
    (delays : Delays) (world : World) (now : ℕ) (ts : List Tracked)
    → Awaited (closed_pair delays world now) (all_closed delays world now ts) ts
unfolding all_closed
all_closed-Awaited delays world now [] = tt
all_closed-Awaited delays world now (t ∷ ts) =
    and_settled-Awaited (closed_pair delays world now) t ts (closed_pair delays world now t)
      (all_closed delays world now ts) refl (all_closed-Awaited delays world now ts)

finish_close-outcome : (a : Settled) → ((finish_close a).done, (finish_close a).at) ≡ a
finish_close-outcome (ok u, at) = refl
finish_close-outcome (err e, at) = refl

-- The configuration node calls `done` without an error only when every resource in its Map, with its
-- connection, has closed without one; and with an error only if closing one of them gave that error at
-- that time, before any other of them gave one.
pub close_server-Awaited :
    (delays : Delays) (world : World) (now : ℕ) (s : Server)
    → let closed = (close_server delays world now s).0 in
      Awaited (closed_pair delays world now) (closed.done, closed.at) s.resources
unfolding close_server
close_server-Awaited delays world now s =
    let closing = all_reversed s.resources [] in
    rw (finish_close-outcome (all_closed delays world now closing)) (
      in_order (closed_pair delays world now) s.resources (all_closed delays world now closing)
        (all_closed-Awaited delays world now closing))
