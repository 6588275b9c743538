-- ===== src/Prelude/Hoare.antt =====
-- Calls that keep a predicate of the world, whatever they come back with, and what the value of a
-- call that comes back with one satisfies. One rule for each way to compose calls.
use quota_lane.Prelude.{String, Bool, true, false, inl, inr, if◌then◌else◌}
use quota_lane.Prelude.Effect.{
  Error, Result, ok, err, panic, M, pure, fail, panics, ◌>>=◌, ◌>>◌, wrap, attempt, ignore, modify,
  read, Result-cases,
}

-- What the value of a result satisfies, if it is one.
abbrev pub Holds : {A : Type 0} → (A → Type 0) → Result A → Type 0
Holds Q (ok a) = Q a
Holds Q (err e) = Unit
Holds Q panic = Unit

abbrev pub Always : {A : Type 0} → A → Type 0
Always _ = Unit

module _ {S : Type 0} (P : S → Type 0) where
  pub Ensures : {A : Type 0} → (A → Type 0) → M S A → Type 0
  Ensures Q m = (s : S) → P s → P (m s).1 × Holds Q (m s).0

  pub Ensures-run :
      {A : Type 0} (Q : A → Type 0) (m : M S A) → Ensures Q m → (s : S) → P s → P (m s).1
  unfolding Ensures
  Ensures-run Q m h s p = (h s p).0

  pub Ensures-elim :
      {A : Type 0} (Q : A → Type 0) (m : M S A)
      → Ensures Q m
      → (s : S) → P s
      → P (m s).1 × Holds Q (m s).0
  unfolding Ensures
  Ensures-elim Q m h = h

  pub Ensures-intro :
      {A : Type 0} (Q : A → Type 0) (m : M S A)
      → ((s : S) → P s → P (m s).1 × Holds Q (m s).0)
      → Ensures Q m
  unfolding Ensures
  Ensures-intro Q m h = h

  pub Ensures-keep :
      {A : Type 0} (m : M S A) → ((s : S) → P s → P (m s).1) → Ensures (Always {A = A}) m
  unfolding Ensures
  Ensures-keep m h s p = (
    h s p,
    elim (Result-cases (m s)) [
      | inl (a, e) ↦ rw e tt
      | inr (inl (f, e)) ↦ rw e tt
      | inr (inr e) ↦ rw e tt
    ],
  )

  pub Ensures-pure : {A : Type 0} (Q : A → Type 0) (a : A) → Q a → Ensures Q (pure a)
  unfolding Ensures
  Ensures-pure Q a q s p = (p, q)

  pub Ensures-fail : {A : Type 0} (Q : A → Type 0) (e : Error) → Ensures Q (fail e)
  unfolding Ensures
  Ensures-fail Q e s p = (p, tt)

  pub Ensures-panics : {A : Type 0} (Q : A → Type 0) → Ensures Q panics
  unfolding Ensures
  Ensures-panics Q s p = (p, tt)

  pub Ensures-bind :
      {A B : Type 0} (Q : A → Type 0) (R : B → Type 0) (m : M S A) (f : A → M S B)
      → Ensures Q m
      → ((a : A) → Q a → Ensures R (f a))
      → Ensures R (m >>= f)
  unfolding Ensures
  Ensures-bind Q R m f hm hf s p = elim (Result-cases (m s)) [
    | inl (a, e) ↦ rw e (hf a (rw e at (hm s p).1) (m s).1 (hm s p).0)
    | inr (inl (g, e)) ↦ rw e ((hm s p).0, tt)
    | inr (inr e) ↦ rw e ((hm s p).0, tt)
  ]

  pub Ensures-then :
      {B : Type 0} (R : B → Type 0) (m : M S (Unit {0})) (k : M S B)
      → Ensures (Always {A = Unit {0}}) m
      → Ensures R k
      → Ensures R (m >> k)
  Ensures-then R m k hm hk = Ensures-bind Always R m (λ _. k) hm (λ _ _. hk)

  pub Ensures-wrap :
      {A : Type 0} (Q : A → Type 0) (note : String) (m : M S A)
      → Ensures Q m
      → Ensures Q (wrap note m)
  unfolding Ensures wrap
  Ensures-wrap Q note m h s p = elim (Result-cases (m s)) [
    | inl (a, e) ↦ rw e ((h s p).0, rw e at (h s p).1)
    | inr (inl (g, e)) ↦ rw e ((h s p).0, tt)
    | inr (inr e) ↦ rw e ((h s p).0, tt)
  ]

  -- The value of an attempt is a result whose value, if any, satisfies `Q`.
  pub Ensures-attempt :
      {A : Type 0} (Q : A → Type 0) (m : M S A) → Ensures Q m → Ensures (Holds Q) (attempt m)
  unfolding Ensures attempt
  Ensures-attempt Q m h s p = elim (Result-cases (m s)) [
    | inl (a, e) ↦ rw e ((h s p).0, rw e at (h s p).1)
    | inr (inl (g, e)) ↦ rw e ((h s p).0, tt)
    | inr (inr e) ↦ rw e ((h s p).0, tt)
  ]

  pub Ensures-modify :
      (f : S → S) → ((s : S) → P s → P (f s)) → Ensures (Always {A = Unit {0}}) (modify f)
  unfolding Ensures modify
  Ensures-modify f h s p = (h s p, tt)

  pub Ensures-read : {A : Type 0} (f : S → A) → Ensures (Always {A = A}) (read f)
  unfolding Ensures read
  Ensures-read f s p = (p, tt)

  pub Ensures-if :
      {A : Type 0} (Q : A → Type 0) (b : Bool) (m n : M S A)
      → Ensures Q m
      → Ensures Q n
      → Ensures Q (if b then m else n)
  Ensures-if Q true m n hm hn = hm
  Ensures-if Q false m n hm hn = hn

  pub Ensures-ignore :
      {A : Type 0} (Q : A → Type 0) (m : M S A)
      → Ensures Q m
      → Ensures (Always {A = Unit {0}}) (ignore m)
  unfolding ignore
  Ensures-ignore Q m h =
      Ensures-bind (Holds Q) Always (attempt m) (λ _. pure tt) (Ensures-attempt Q m h)
        (λ _ _. Ensures-pure Always tt tt)
