-- ===== src/Base/Run.antt =====
-- Programs that pass a state on, and what holds after a part of one, whether it returned or ended it.
use Prim.Native.Nat.{ℕ}
use mathlib.Core.Path.{◌≡◌, refl}

-- A call returns, or the process ends by `exit` or by `assert`, or comes to an access outside an array. A run
-- that is cut off has used up its fuel.
pub data Outcome (A : Type 0) : Type 0 where
  ok : A → Outcome A
  exits : ℕ → Outcome A
  aborts : Outcome A
  faults : Outcome A
  out_of_fuel : Outcome A

-- A part of a program over the state `S`.
abbrev pub Run : Type 0 → Type 0 → Type 0
Run S A = S → Outcome A × S

module _ {S A B : Type 0} where
  abbrev pub and_then : Outcome A × S → (A → Run S B) → Outcome B × S
  and_then (ok a, s) k = k a s
  and_then (exits n, s) k = (exits n, s)
  and_then (aborts, s) k = (aborts, s)
  and_then (faults, s) k = (faults, s)
  and_then (out_of_fuel, s) k = (out_of_fuel, s)

  infixl 5 ◌>>=◌ ◌>>◌
  abbrev pub ◌>>=◌ : Run S A → (A → Run S B) → Run S B
  m >>= k = λ s. and_then (m s) k

  abbrev pub ◌>>◌ : Run S A → Run S B → Run S B
  m >> n = m >>= λ _. n

module _ {S : Type 0} where
  abbrev pub pure : {A : Type 0} → A → Run S A
  pure a s = (ok a, s)

  abbrev pub fault : {A : Type 0} → Run S A
  fault s = (faults, s)

  abbrev pub get : Run S S
  get s = (ok s, s)

  abbrev pub modify : (S → S) → Run S Unit
  modify f s = (ok tt, f s)

module _ {S A : Type 0} where
  -- `Q` holds of the value and the state if the part returned, and `E` of the state if it ended the
  -- program or ran out of fuel.
  abbrev pub On : (A → S → Type 0) → (S → Type 0) → Outcome A × S → Type 0
  On Q E (ok a, t) = Q a t
  On Q E (_, t) = E t

  pub On-map :
      (Q Q' : A → S → Type 0) (E E' : S → Type 0) (p : Outcome A × S)
      → On Q E p
      → ((a : A) (t : S) → Q a t → Q' a t)
      → ((t : S) → E t → E' t)
      → On Q' E' p
  On-map Q Q' E E' (ok a, t) h f g = f a t h
  On-map Q Q' E E' (exits n, t) h f g = g t h
  On-map Q Q' E E' (aborts, t) h f g = g t h
  On-map Q Q' E E' (faults, t) h f g = g t h
  On-map Q Q' E E' (out_of_fuel, t) h f g = g t h

  pub On-also :
      (Q R : A → S → Type 0) (E : S → Type 0) (p : Outcome A × S)
      → On Q E p
      → On R (λ _. ⊥) p
      → On (λ a t. R a t × Q a t) (λ _. ⊥) p
  On-also Q R E (ok a, t) h r = (r, h)
  On-also Q R E (exits n, t) h r = r
  On-also Q R E (aborts, t) h r = r
  On-also Q R E (faults, t) h r = r
  On-also Q R E (out_of_fuel, t) h r = r

  pub On-pair :
      (Q R : A → S → Type 0) (E F : S → Type 0) (p : Outcome A × S)
      → On Q E p
      → On R F p
      → On (λ a t. Q a t × R a t) (λ t. E t × F t) p
  On-pair Q R E F (ok a, t) h r = (h, r)
  On-pair Q R E F (exits n, t) h r = (h, r)
  On-pair Q R E F (aborts, t) h r = (h, r)
  On-pair Q R E F (faults, t) h r = (h, r)
  On-pair Q R E F (out_of_fuel, t) h r = (h, r)

  pub On-any : (p : Outcome A × S) → On (λ _ _. Unit) (λ _. Unit) p
  On-any (ok a, t) = tt
  On-any (exits n, t) = tt
  On-any (aborts, t) = tt
  On-any (faults, t) = tt
  On-any (out_of_fuel, t) = tt

  -- What a part does if it returns, and that it returns
  pub On-both :
      (Q : A → S → Type 0) (E : S → Type 0) (R : A → S → Type 0) (p : Outcome A × S)
      → On Q E p
      → On R (λ _. ⊥) p
      → On Q (λ _. ⊥) p
  On-both Q E R (ok a, t) h r = h
  On-both Q E R (exits n, t) h r = r
  On-both Q E R (aborts, t) h r = r
  On-both Q E R (faults, t) h r = r
  On-both Q E R (out_of_fuel, t) h r = r

-- The rule for two parts in sequence
pub On-and_then :
    {S A B : Type 0} (Q : A → S → Type 0) (R : B → S → Type 0) (E : S → Type 0) (p : Outcome A × S)
    (k : A → Run S B)
    → On Q E p
    → ((a : A) (t : S) → Q a t → On R E (k a t))
    → On R E (and_then p k)
On-and_then Q R E (ok a, t) k h f = f a t h
On-and_then Q R E (exits n, t) k h f = h
On-and_then Q R E (aborts, t) k h f = h
On-and_then Q R E (faults, t) k h f = h
On-and_then Q R E (out_of_fuel, t) k h f = h

-- `Q` holds if the part returned, and it does not end in another way than by an access outside an array.
abbrev pub OrFaults : {S A : Type 0} → (A → S → Type 0) → Outcome A × S → Type 0
OrFaults Q (ok a, t) = Q a t
OrFaults Q (faults, t) = Unit
OrFaults Q (_, t) = ⊥

pub OrFaults-and_then :
    {S A B : Type 0} (Q : A → S → Type 0) (R : B → S → Type 0) (p : Outcome A × S) (k : A → Run S B)
    → OrFaults Q p
    → ((a : A) (t : S) → Q a t → OrFaults R (k a t))
    → OrFaults R (and_then p k)
OrFaults-and_then Q R (ok a, t) k h f = f a t h
OrFaults-and_then Q R (faults, t) k h f = tt
OrFaults-and_then Q R (exits n, t) k h f = h
OrFaults-and_then Q R (aborts, t) k h f = h
OrFaults-and_then Q R (out_of_fuel, t) k h f = h

pub OrFaults-On :
    {S A : Type 0} (Q R : A → S → Type 0) (E : S → Type 0) (p : Outcome A × S)
    → On Q E p
    → OrFaults R p
    → OrFaults Q p
OrFaults-On Q R E (ok a, t) h r = h
OrFaults-On Q R E (faults, t) h r = tt
OrFaults-On Q R E (exits n, t) h r = r
OrFaults-On Q R E (aborts, t) h r = r
OrFaults-On Q R E (out_of_fuel, t) h r = r

pub OrFaults-never : {S A : Type 0} (p : Outcome A × S) → OrFaults (λ _ _. ⊥) p → p.0 ≡ faults
OrFaults-never (ok a, t) h = absurd h
OrFaults-never (faults, t) h = refl
OrFaults-never (exits n, t) h = absurd h
OrFaults-never (aborts, t) h = absurd h
OrFaults-never (out_of_fuel, t) h = absurd h

-- A relation between states that holds from the start of a part to its end, however it ends.
module _ {S : Type 0} (R : S → S → Type 0) where
  abbrev pub Keeps : {A : Type 0} → Run S A → Type 0
  Keeps m = (s : S) → On (λ _ t. R s t) (λ t. R s t) (m s)

  module _ (R-trans : (s t u : S) → R s t → R t u → R s u) where
    pub Keeps->>= :
        {A B : Type 0} (m : Run S A) (k : A → Run S B)
        → Keeps m
        → ((a : A) → Keeps (k a))
        → Keeps (λ s. and_then (m s) k)
    Keeps->>= m k h f s =
        On-and_then (λ _ t. R s t) (λ _ t. R s t) (R s) (m s) k (h s)
          λ a t r.
            On-map (λ _ u. R t u) (λ _ u. R s u) (R t) (R s) (k a t) (f a t)
              (λ b u. R-trans s t u r) (λ u. R-trans s t u r)

-- From any state with `P`, `m` returns in one with `Q` or ends in one with `E`.
pub record Triple {S A : Type 0} (P : S → Type 0) (m : Run S A) (Q : A → S → Type 0)
    (E : S → Type 0) : Type 0 where
  pub runs : (s : S) → P s → On Q E (m s)

pub runs_by :
    {S A : Type 0} {P : S → Type 0} {m : Run S A} {Q : A → S → Type 0} {E : S → Type 0}
    → ((s : S) → P s → On Q E (m s))
    → Triple P m Q E
runs_by h = record { runs = h }

infixl 6 ◌then_runs◌
pub ◌then_runs◌ :
    {S A B : Type 0} {P : S → Type 0} {Q : A → S → Type 0} {R : B → S → Type 0} {E : S → Type 0}
    {m : Run S A} {k : A → Run S B}
    → Triple P m Q E
    → ((a : A) → Triple (Q a) (k a) R E)
    → Triple P (λ s. and_then (m s) k) R E
◌then_runs◌ {Q = Q} {R = R} {E = E} {m = m} {k = k} h f = record {
  runs = λ s p. On-and_then Q R E (m s) k (h.runs s p) (λ a t q. (f a).runs t q);
}

-- What holds before `m` holds after it, however it ends.
abbrev pub Kept : {S A : Type 0} → (S → Type 0) → Run S A → Type 0
Kept I m = Triple I m (λ _. I) I
