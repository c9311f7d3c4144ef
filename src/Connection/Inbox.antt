-- ===== src/Connection/Inbox.antt =====
-- `drain_available_messages`: a bounded batch of the frames that are there.
use pitlane_agent.Common.{
  ℕ, zero, suc, ◌+◌, ◌≤◌, max, String, ◌≡◌, refl, ◌⊎◌, Option, none, some, List, [], ◌∷◌, ◌++◌,
  arith, if◌then◌else◌, length, map, inl, inr, Option-cases,
}
use pitlane_agent.Common.Text.{is_empty}

-- What `recv` does: it times out, or gives a frame, which is `none` or empty if the socket closed.
pub data Reception : Type 0 where
  timeout : Reception
  frame : Option String → Reception

-- `handle_message` gives the new state, or raises.
pub data Drained (S : Type 0) : Type 0 where
  received : ℕ → S → List Reception → Drained S
  closed : S → Drained S
  crashed : S → Drained S

abbrev pub body : Option String → Option String
body none = none
body (some raw) = if is_empty raw then none else some raw

pub body-some : (f : Option String) {raw : String} → body f ≡ some raw → f ≡ some raw
body-some none e = cc
body-some (some s) e = ground (arith, e)

module _ {S : Type 0} (handle : String → S → Option S) where
  -- `fuel` is the number of rounds left; the list of receptions is what the socket will give, and
  -- a timeout after its end.
  unfoldable pub drain : ℕ → ℕ → S → List Reception → Drained S
  drain zero n s rs = received n s rs
  drain (suc fuel) n s [] = received n s []
  drain (suc fuel) n s (timeout ∷ rs) = received n s rs
  drain (suc fuel) n s (frame f ∷ rs) = elim (body f) [
    | none ↦ closed s
    | some raw ↦ elim (handle raw s) [ none ↦ crashed s | some s' ↦ drain fuel (n + 1) s' rs ]
  ]

  unfoldable pub drain_available_messages : ℕ → S → List Reception → Drained S
  unfolding drain
  drain_available_messages limit s rs = drain (max 1 limit) 0 s rs

  -- Handling messages one after the other.
  unfoldable pub handle_all : List String → S → Option S
  handle_all [] s = some s
  handle_all (m ∷ ms) s = elim (handle m s) [ none ↦ none | some s' ↦ handle_all ms s' ]

  -- The batch: messages that were handled in order, then what stopped it.
  pub record Batch (fuel n n' : ℕ) (s s' : S) (rs rest : List Reception) : Type 0 where
    pub messages : List String
    pub handled : handle_all messages s ≡ some s'
    pub count : n' ≡ n + length messages
    pub bounded : length messages ≤ fuel
    pub order :
        ((rs ≡ map (λ m. frame (some m)) messages ++ rest)
          × ((length messages ≡ fuel) ⊎ (rest ≡ [])))
        ⊎ (rs ≡ map (λ m. frame (some m)) messages ++ timeout ∷ rest)

  drain-Batch :
      (fuel n : ℕ) (s : S) (rs : List Reception) {n' : ℕ} {s' : S} {rest : List Reception}
      → drain fuel n s rs ≡ received n' s' rest
      → Batch fuel n n' s s' rs rest
  unfolding drain handle_all
  drain-Batch zero n s rs h = record {
    messages = [];
    handled = ground (arith, h);
    count = ground (arith, h);
    bounded = omega arith;
    order = inl (ground (arith, h), inl refl);
  }
  drain-Batch (suc fuel) n s [] h = record {
    messages = [];
    handled = ground (arith, h);
    count = ground (arith, h);
    bounded = omega arith;
    order = inl (ground (arith, h), inr (ground (arith, h)));
  }
  drain-Batch (suc fuel) n s (timeout ∷ rs) h = record {
    messages = [];
    handled = ground (arith, h);
    count = ground (arith, h);
    bounded = omega arith;
    order = inr (ground (arith, h));
  }
  drain-Batch (suc fuel) n s (frame f ∷ rs) {n'} {s'} {rest} h = elim (Option-cases (body f)) [
    | inl e ↦ absurd (ground (arith, e, h))
    | inr (raw, e) ↦ elim (Option-cases (handle raw s)) [
      | inl e' ↦ absurd (ground (arith, e, e', h))
      | inr (t, e') ↦
          let h' : drain fuel (n + 1) t rs ≡ received n' s' rest = ground (arith, e, e', h) in
          let b = drain-Batch fuel (n + 1) t rs h' in
          let whole : f ≡ some raw = body-some f e in
          record {
            messages = raw ∷ b.messages;
            handled = rw (e', handle_all) b.handled;
            count = omega (arith, b.count);
            bounded = omega (arith, b.bounded);
            order = elim b.order [
              | inl (o, inl full) ↦ inl (rw (whole, ← o) refl, inl (omega (arith, full)))
              | inl (o, inr done) ↦ inl (rw (whole, ← o) refl, inr done)
              | inr o ↦ inr (rw (whole, ← o) refl)
            ];
          }
    ]
  ]

  -- A batch that ends without an error has handled, in order, the first messages that were there:
  -- as many as the limit allows at most (one at least), and fewer only where a timeout follows or
  -- nothing is left.
  pub drain_available_messages-Batch :
      (limit : ℕ) (s : S) (rs : List Reception) {n' : ℕ} {s' : S} {rest : List Reception}
      → drain_available_messages limit s rs ≡ received n' s' rest
      → Batch (max 1 limit) 0 n' s s' rs rest
  unfolding drain_available_messages
  drain_available_messages-Batch limit s rs h = drain-Batch (max 1 limit) 0 s rs h
