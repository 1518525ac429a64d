-- ===== src/Io/Halting.antt =====
-- Actions that do not panic, by rules for the ways to build them.
use good_mitm.Prelude.{◌≡◌, refl, Option, none, some}
use good_mitm.Env.{Env}
use good_mitm.Io.{Io, Outcome, done, panic, unwrap, ◌>>=◌}
use good_mitm.Io.Ensures.{Returns}

abbrev pub Succeeds : {A : Type 0} → Outcome A → Type 0
Succeeds (done a) = Unit
Succeeds panic = ⊥

abbrev pub Halts : {E : Env} {A : Type 0} → Io E A → Type 0
Halts m = Succeeds m.1

module _ {E : Env} where
  pub Halts-bind :
      {A B : Type 0} (m : Io E A) (f : A → Io E B)
      → Halts m
      → ((a : A) → m.1 ≡ done a → Halts (f a))
      → Halts (m >>= f)
  Halts-bind (log, done a) f hm hf = hf a refl
  Halts-bind (log, panic) f hm hf = absurd hm

  pub Halts-Returns : {A : Type 0} (m : Io E A) → Halts m → Returns m
  Halts-Returns (log, done a) h = (a, refl)
  Halts-Returns (log, panic) h = absurd h

  pub Returns-Halts : {A : Type 0} (m : Io E A) → Returns m → Halts m
  Returns-Halts (log, done a) h = tt
  Returns-Halts (log, panic) (a, e) = let clash : panic ≡ done a = e in absurd cc

pub Halts-unwrap :
    (E : Env) {A : Type 0} (o : Option A) → ((a : A) × (o ≡ some a)) → Halts (unwrap {E = E} o)
Halts-unwrap E none (a, e) = absurd cc
Halts-unwrap E (some x) h = tt
