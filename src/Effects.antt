-- ===== src/Effects.antt =====
-- Straight-line Go code with effects: a run is the list of the effects that it has had, in order,
-- with its result. The answers of the outside are arguments.
use terraform_provider_tunne.Base.{
  ℕ, zero, suc, ◌≡◌, ◌⊎◌, inl, inr, take, List, [], ◌∷◌, ◌++◌, Option, none, some,
}
use terraform_provider_tunne.Errors.{Error, Result, ok, err}

abbrev pub Run : Type 0 → Type 0 → Type 0
Run E A = List E × Result A

-- The effects `t`, and then those of `r`.
abbrev pub after : {E A : Type 0} → List E → Run E A → Run E A
after t r = (t ++ r.0, r.1)

-- Go's early return: what follows an error is not run.
infixl 5 ◌>>=◌ ◌>>◌
abbrev pub ◌>>=◌ : {E A B : Type 0} → Run E A → (A → Run E B) → Run E B
m >>= f = elim m.1 [ ok a ↦ after m.0 (f a) | err e ↦ (m.0, err e) ]

abbrev pub ◌>>◌ : {E B : Type 0} → Run E (Unit {0}) → Run E B → Run E B
m >> k = m >>= λ _. k

-- A call with the effect `e` that gives `r`, and one that has its effect only if it succeeds.
abbrev pub perform : {E A : Type 0} → E → Result A → Run E A
perform e r = (e ∷ [], r)

abbrev pub acquire : {E A : Type 0} → E → Result A → Run E A
acquire e (ok a) = (e ∷ [], ok a)
acquire e (err x) = ([], err x)

-- A call whose only use is its result.
abbrev pub ask : {E A : Type 0} → Result A → Run E A
ask r = ([], r)

abbrev pub emit : {E : Type 0} → E → Run E (Unit {0})
emit e = (e ∷ [], ok tt)

-- `defer e` in front of the rest of a function.
abbrev pub defer : {E A : Type 0} → E → Run E A → Run E A
defer e r = (r.0 ++ e ∷ [], r.1)

abbrev pub result_of : Option Error → Result (Unit {0})
result_of none = ok tt
result_of (some e) = err e

-- The effect is one of the list.
abbrev pub Happened : {E : Type 0} → E → List E → Type 0
Happened e [] = ⊥
Happened e (x ∷ es) = (x ≡ e) ⊎ Happened e es

pub Happened-take :
    {E : Type 0} (e : E) (n : ℕ) (es : List E) → Happened e (take n es) → Happened e es
Happened-take e zero es h = elim h [ ]
Happened-take e (suc n) [] h = h
Happened-take e (suc n) (y ∷ es) (inl h) = inl h
Happened-take e (suc n) (y ∷ es) (inr h) = inr (Happened-take e n es h)

-- What a run never does, no beginning of it does.
pub not_in_part :
    {E : Type 0} (e : E) (n : ℕ) (es : List E) → (Happened e es → ⊥) → Happened e (take n es) → ⊥
not_in_part e zero es x h = h
not_in_part e (suc n) [] x h = h
not_in_part e (suc n) (y ∷ es) x (inl h) = x (inl h)
not_in_part e (suc n) (y ∷ es) x (inr h) = not_in_part e n es (λ k. x (inr k)) h
