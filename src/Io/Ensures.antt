-- ===== src/Io/Ensures.antt =====
-- What holds of every result and of every event of an action, by rules for the ways to build it.
use good_mitm.Prelude.{◌≡◌, ◌∙◌, refl, ap, Option, none, some, All, All-append, []}
use mathlib.Core.Path.{subst, fun_ext}
use good_mitm.Env.{Env}
use good_mitm.Io.{Io, Event, Outcome, done, panic, unwrap, ◌>>=◌}

-- `P` holds of the value, if there is one.
abbrev pub Holds {ℓ} : {A : Type 0} → (A → Type ℓ) → Outcome A → Type ℓ
Holds P (done a) = P a
Holds P panic = Unit

-- If the action does not panic, `P` holds of its value.
abbrev pub Ensures {ℓ} : {E : Env} {A : Type 0} → (A → Type ℓ) → Io E A → Type ℓ
Ensures P m = Holds P m.1

-- `Q` holds of every event of the action.
abbrev pub Emits {ℓ} : {E : Env} {A : Type 0} → (Event E → Type ℓ) → Io E A → Type ℓ
Emits Q m = All Q m.0

-- The action does not panic.
abbrev pub Returns : {E : Env} {A : Type 0} → Io E A → Type 0
Returns {A} m = (a : A) × (m.1 ≡ done a)

pub Ensures-unwrap {ℓ} :
    {A : Type 0} (E : Env) (P : A → Type ℓ) (o : Option A)
    → ((a : A) → o ≡ some a → P a)
    → Ensures P (unwrap {E = E} o)
Ensures-unwrap E P none h = tt
Ensures-unwrap E P (some a) h = h a refl

pub unwrap-eq_done :
    (E : Env) {A : Type 0} (o : Option A) {a : A} → (unwrap {E = E} o).1 ≡ done a → o ≡ some a
unwrap-eq_done E none h = cc
unwrap-eq_done E (some x) h = cc

module _ {E : Env} where
  pub Ensures-bind {ℓ} :
      {A B : Type 0} (P : B → Type ℓ) (m : Io E A) (f : A → Io E B)
      → ((a : A) → m.1 ≡ done a → Ensures P (f a))
      → Ensures P (m >>= f)
  Ensures-bind P (log, done a) f h = h a refl
  Ensures-bind P (log, panic) f h = tt

  pub Emits-bind {ℓ} :
      {A B : Type 0} (Q : Event E → Type ℓ) (m : Io E A) (f : A → Io E B)
      → Emits Q m
      → ((a : A) → m.1 ≡ done a → Emits Q (f a))
      → Emits Q (m >>= f)
  Emits-bind Q (log, done a) f hm hf = All-append Q log (f a).0 hm (hf a refl)
  Emits-bind Q (log, panic) f hm hf = All-append Q log [] hm tt

  pub Emits-unwrap {ℓ} :
      {A : Type 0} (Q : Event E → Type ℓ) (o : Option A) → Emits Q (unwrap {E = E} o)
  Emits-unwrap Q none = tt
  Emits-unwrap Q (some a) = tt

  -- To read off the value of a call from what is known of it.
  pub Ensures-at {ℓ} :
      {A : Type 0} (P : A → Type ℓ) (m : Io E A) {a : A} → m.1 ≡ done a → Ensures P m → P a
  Ensures-at P (log, done b) e h = subst P (cc) h
  Ensures-at P (log, panic) e h = cc

  pub Ensures-of {ℓ} :
      {A : Type 0} (P : A → Type ℓ) (m : Io E A) → ((a : A) → m.1 ≡ done a → P a) → Ensures P m
  Ensures-of P (log, done a) h = h a refl
  Ensures-of P (log, panic) h = tt

  pub Returns-bind :
      {A B : Type 0} (m : Io E A) (f : A → Io E B) {a : A}
      → m.1 ≡ done a
      → Returns (f a)
      → Returns (m >>= f)
  Returns-bind (log, done x) f {a} e (b, h) =
      let same : a ≡ x = cc in (b, subst (λ y. (f y).1 ≡ done b) same h)
  Returns-bind (log, panic) f e h = cc

  pub bind-cong :
      {A B : Type 0} (m : Io E A) (f g : A → Io E B) → ((a : A) → f a ≡ g a) → (m >>= f) ≡ (m >>= g)
  bind-cong m f g h = ap {B = Io E _} (λ k. m >>= k) (fun_ext h)

  pub bind-cong_of_done :
      {A B : Type 0} (m : Io E A) (f g : A → Io E B)
      → ((a : A) → m.1 ≡ done a → f a ≡ g a)
      → (m >>= f) ≡ (m >>= g)
  bind-cong_of_done (log, done a) f g h = rw (h a refl)
  bind-cong_of_done (log, panic) f g h = refl

  pub bind_of_done :
      {A B : Type 0} (m : Io E A) (f : A → Io E B) {a : A} → m.1 ≡ done a → (m >>= f).1 ≡ (f a).1
  bind_of_done (log, done x) f {a} h = let same : x ≡ a = cc in ap (λ y. (f y).1) same
  bind_of_done (log, panic) f h = cc

  pub done-bind :
      {A B : Type 0} (m : Io E A) (f : A → Io E B) {a : A} {b : B}
      → m.1 ≡ done a
      → (f a).1 ≡ done b
      → (m >>= f).1 ≡ done b
  done-bind m f h k = bind_of_done m f h ∙ k
