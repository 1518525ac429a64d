-- ===== src/Io.antt =====
-- The effects of the program's handlers: what they log and send, in order, and a panic.
pub mod Ensures
pub mod Halting
pub mod Local
use good_mitm.Prelude.{ℕ, ◌≡◌, Option, none, some, List, [], ◌∷◌, ◌++◌, append-nil, append_assoc}
use good_mitm.Text.{Text}
use good_mitm.Env.{Env}

-- `http::Request<Body>`
pub record Request (E : Env) : Type 0 where
  pub method : E.Method
  pub uri : E.Uri
  pub version : E.Version
  pub headers : E.HeaderMap
  pub body : E.Body

-- `http::Response<Body>`
pub record Response (E : Env) : Type 0 where
  pub status : ℕ
  pub version : E.Version
  pub headers : E.HeaderMap
  pub body : E.Body

pub data Event (E : Env) : Type 0 where
  info : Text → Event E
  error : Text → Event E
  debug : Text → Event E
  -- a request to the server behind the proxy
  sent : Request E → Event E
  -- the task of `process_connect` that serves TLS on the connection of a request
  spawned_tls : Request E → Event E
  -- its task that joins the connection to the server
  spawned_tunnel : Request E → Event E
  -- a connection to an address
  dialed : Text → Event E

pub data Outcome (A : Type 0) : Type 0 where
  done : A → Outcome A
  panic : Outcome A

abbrev pub Io : Env → Type 0 → Type 0
Io E A = List (Event E) × Outcome A

module _ {E : Env} where
  abbrev pub pure : {A : Type 0} → A → Io E A
  pure a = ([], done a)

  abbrev pub crash : {A : Type 0} → Io E A
  crash = ([], panic)

  abbrev pub tell : Event E → Io E (Unit {0})
  tell e = (e ∷ [], done tt)

  -- `unwrap` and `expect`
  abbrev pub unwrap : {A : Type 0} → Option A → Io E A
  unwrap none = crash
  unwrap (some a) = pure a

  abbrev pub continue : {A B : Type 0} → Outcome A → (A → Io E B) → Io E B
  continue (done a) f = f a
  continue panic f = crash

  infixl 5 ◌>>=◌ ◌>>◌
  abbrev pub ◌>>=◌ : {A B : Type 0} → Io E A → (A → Io E B) → Io E B
  m >>= f = let r = continue m.1 f in (m.0 ++ r.0, r.1)

  abbrev pub ◌>>◌ : {A B : Type 0} → Io E A → Io E B → Io E B
  m >> k = m >>= λ _. k

  pub bind-pure : {A : Type 0} (m : Io E A) → (m >>= pure) ≡ m
  bind-pure (log, done a) = rw append-nil
  bind-pure (log, panic) = rw append-nil

  pub bind_assoc :
      {A B C : Type 0} (m : Io E A) (f : A → Io E B) (g : B → Io E C)
      → ((m >>= f) >>= g) ≡ (m >>= λ a. f a >>= g)
  bind_assoc (log, done a) f g = rw append_assoc
  bind_assoc (log, panic) f g = simp append-nil
