-- ===== src/Effects.antt =====
-- Code that changes a state and throws: a state monad with exceptions, its `try` and its rules.
use p2000t_cartridge_studio.Base.{Bool, true, false, ◌≡◌, refl, ap, subst}

pub data Result (E A : Type 0) : Type 0 where
  ok : A → Result E A
  err : E → Result E A

-- The state of an exception is the state at the `throw`.
abbrev pub M : Type 0 → Type 0 → Type 0 → Type 0
M S E A = S → Result E A × S

pub thrown_is_not_ok : {E A : Type 0} {e : E} {a : A} → err e ≡ ok a → ⊥
thrown_is_not_ok {E = E} {A = A} h =
    subst (λ (r : Result E A). elim r [ ok x ↦ ⊥ | err x ↦ Unit {0} ]) h tt

module _ {S E : Type 0} where
  abbrev pub pure : {A : Type 0} → A → M S E A
  pure a s = (ok a, s)

  abbrev pub throw : {A : Type 0} → E → M S E A
  throw e s = (err e, s)

  abbrev pub proceed : {A B : Type 0} → Result E A × S → (A → M S E B) → Result E B × S
  proceed (ok a, s) f = f a s
  proceed (err e, s) f = (err e, s)

  infixl 5 ◌>>=◌ ◌>>◌
  abbrev pub ◌>>=◌ : {A B : Type 0} → M S E A → (A → M S E B) → M S E B
  ◌>>=◌ m f s = proceed (m s) f

  abbrev pub ◌>>◌ : {B : Type 0} → M S E (Unit {0}) → M S E B → M S E B
  ◌>>◌ m k s = proceed (m s) (λ _. k)

  abbrev pub gets : {A : Type 0} → (S → A) → M S E A
  gets f s = (ok (f s), s)

  abbrev pub modify : (S → S) → M S E (Unit {0})
  modify f s = (ok tt, f s)

  -- `if(!test) throw e;`
  abbrev pub guard : Bool → E → M S E (Unit {0})
  guard true e = pure tt
  guard false e = throw e

  abbrev pub handled : {A : Type 0} → Result E A × S → (E → M S E A) → Result E A × S
  handled (ok a, s) h = (ok a, s)
  handled (err e, s) h = h e s

  -- `try { m } catch(e) { h e }`
  abbrev pub try_catch : {A : Type 0} → M S E A → (E → M S E A) → M S E A
  try_catch m h s = handled (m s) h

  -- What holds of both ends of a step holds of what proceeds from it.
  pub proceed_both :
      {A B : Type 0} (P : Result E B × S → Type 0) (r : Result E A × S) (f : A → M S E B)
      → ((a : A) (s : S) → r ≡ (ok a, s) → P (f a s))
      → ((e : E) (s : S) → r ≡ (err e, s) → P (err e, s))
      → P (proceed r f)
  proceed_both P (ok a, s) f h k = h a s refl
  proceed_both P (err e, s) f h k = k e s refl

  -- A property of states that both steps keep.
  pub proceed_kept :
      {A B : Type 0} (Inv : S → Type 0) (r : Result E A × S) (f : A → M S E B)
      → Inv (r.1)
      → ((a : A) (s : S) → Inv s → Inv (f a s).1)
      → Inv (proceed r f).1
  proceed_kept Inv (ok a, s) f h k = k a s h
  proceed_kept Inv (err e, s) f h k = h

  -- Both steps of what ends well have ended well.
  pub proceed_ok :
      {A B : Type 0} (r : Result E A × S) (f : A → M S E B) (b : B) (s' : S)
      → proceed r f ≡ (ok b, s')
      → (a : A) × (s : S) × (r ≡ (ok a, s)) × (f a s ≡ (ok b, s'))
  proceed_ok (ok a, s) f b s' h = (a, s, refl, h)
  proceed_ok (err e, s) f b s' h = absurd (thrown_is_not_ok (ap (λ (r : Result E _ × S). r.0) h))
