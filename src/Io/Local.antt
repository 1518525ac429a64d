-- ===== src/Io/Local.antt =====
-- Actions that only log.
use good_mitm.Prelude.{Option, none, some}
use good_mitm.Env.{Env}
use good_mitm.Io.{
  Io, Event, info, error, debug, dialed, sent, spawned_tls, spawned_tunnel, unwrap, ◌>>=◌,
}
use good_mitm.Io.Ensures.{Emits, Emits-bind}

-- An event that stays in the proxy: a line of the log.
abbrev pub IsLocal : {E : Env} → Event E → Type 0
IsLocal (info line) = Unit
IsLocal (error line) = Unit
IsLocal (debug line) = Unit
IsLocal (sent req) = ⊥
IsLocal (spawned_tls req) = ⊥
IsLocal (spawned_tunnel req) = ⊥
IsLocal (dialed address) = ⊥

-- The action sends nothing and starts nothing.
abbrev pub OnlyLogs : {E : Env} {A : Type 0} → Io E A → Type 0
OnlyLogs m = Emits IsLocal m

module _ {E : Env} where
  pub OnlyLogs-bind :
      {A B : Type 0} (m : Io E A) (f : A → Io E B)
      → OnlyLogs m
      → ((a : A) → OnlyLogs (f a))
      → OnlyLogs (m >>= f)
  OnlyLogs-bind m f hm hf = Emits-bind IsLocal m f hm (λ a _. hf a)

pub OnlyLogs-unwrap : (E : Env) {A : Type 0} (o : Option A) → OnlyLogs {E = E} (unwrap {E = E} o)
OnlyLogs-unwrap E none = tt
OnlyLogs-unwrap E (some a) = tt
