-- ===== src/Base/Steps.antt =====
-- Steps on a state that may fail: what was changed before an error stays changed, and `?` is bind.
use carddav_mcp.Base.{◌≡◌, refl, sym, ap, subst, arith, Result, ok, err}

abbrev pub StepOf : Type 0 → Type 0 → Type 0 → Type 0
StepOf E S A = S → S × Result E A

module _ {E S : Type 0} where
  -- What follows a step, if it did not end the whole.
  unfoldable pub after_step : {A B : Type 0} → S × Result E A → (A → StepOf E S B) → S × Result E B
  after_step (s, ok a) f = f a s
  after_step (s, err e) f = (s, err e)

  infixl 5 ◌>>=◌ ◌>>◌
  abbrev pub ◌>>=◌ : {A B : Type 0} → StepOf E S A → (A → StepOf E S B) → StepOf E S B
  m >>= f = λ s. after_step (m s) f

  abbrev pub ◌>>◌ : {B : Type 0} → StepOf E S (Unit {0}) → StepOf E S B → StepOf E S B
  m >> k = m >>= λ t. k

  abbrev pub lift : {A : Type 0} → Result E A → StepOf E S A
  lift r s = (s, r)

module _ {E S A B : Type 0} where
  -- A step that went on, and what went on from there.
  pub record Went (r : S × Result E A) (f : A → StepOf E S B) (s' : S) (b : B) : Type 0 where
    pub between : S
    pub value : A
    pub first_is : r ≡ (between, ok value)
    pub rest_is : f value between ≡ (s', ok b)

  pub after_step-Went :
      {f : A → StepOf E S B} {s' : S} {b : B} (r : S × Result E A)
      → after_step r f ≡ (s', ok b)
      → Went r f s' b
  unfolding after_step
  after_step-Went (between, ok value) h = record {
    between = between;
    value = value;
    first_is = refl;
    rest_is = h;
  }
  after_step-Went (between, err error) h = absurd (ground arith)

pub lift-Went :
    {E S A B : Type 0} {s' : S} {b : B} (f : A → StepOf E S B) (r : Result E A) (s : S)
    → after_step (lift r s) f ≡ (s', ok b)
    → (value : A) × (r ≡ ok value) × (f value s ≡ (s', ok b))
lift-Went {s' = s'} {b = b} f r s h =
    let w = after_step-Went (lift r s) h in
    (
      w.value,
      ap (λ x. x.1) w.first_is,
      subst (λ t. f w.value t ≡ (s', ok b)) (sym (ap (λ x. x.0) w.first_is)) w.rest_is,
    )

-- Properties of the state that steps keep.
module _ {S : Type 0} (P : S → Type 0) where
  abbrev pub Keeps : {E A : Type 0} → StepOf E S A → Type 0
  Keeps step = (s : S) → P s → P (step s).0

  pub Keeps-bind :
      {E A B : Type 0} (m : StepOf E S A) (f : A → StepOf E S B)
      → Keeps m
      → ((a : A) → Keeps (f a))
      → Keeps (m >>= f)
  unfolding after_step
  Keeps-bind {E = E} {A = A} m f km kf s p = after (m s) (km s p)
    where
      after : (r : S × Result E A) → P r.0 → P ((after_step r f).0)
      after (s', ok a) p' = kf a s' p'
      after (s', err e) p' = p'

  pub Keeps-lift :
      {E A B : Type 0} (r : Result E A) (f : A → StepOf E S B)
      → ((a : A) → r ≡ ok a → Keeps (f a))
      → Keeps (lift r >>= f)
  unfolding after_step
  Keeps-lift (ok a) f k s p = k a refl s p
  Keeps-lift (err e) f k s p = p

-- Facts of the state and the value that steps answer.
module _ {E S : Type 0} where
  abbrev pub Answers : {A : Type 0} → (S → A → Type 0) → StepOf E S A → Type 0
  Answers {A = A} Q step = (s s' : S) (a : A) → step s ≡ (s', ok a) → Q s' a

  pub Answers-bind :
      {A B : Type 0} (Q : S → B → Type 0) (m : StepOf E S A) (f : A → StepOf E S B)
      → ((a : A) → Answers Q (f a))
      → Answers Q (m >>= f)
  Answers-bind Q m f k s s' b h =
      let w = after_step-Went (m s) h in k w.value w.between s' b w.rest_is
