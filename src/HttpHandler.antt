-- ===== src/HttpHandler.antt =====
-- The interface between the proxy and a handler: `HttpHandler` of crates/core/src/handler.rs, with
-- `RequestOrResponse` and `HttpContext` of crates/core/src/mitm.rs
use good_mitm.Prelude.{Bool, false, Option, none}
use good_mitm.Env.{Env}
use good_mitm.Io.{Io, Request, Response, pure}

pub data RequestOrResponse (E : Env) : Type 0 where
  request : Request E → RequestOrResponse E
  response : Response E → RequestOrResponse E

pub record HttpContext (E : Env) (D : Type 0) : Type 0 where
  pub uri : Option E.Uri
  pub should_modify_response : Bool
  pub custom_data : D

-- The context as each request begins with it.
abbrev pub new_context : (E : Env) (D : Type 0) → D → HttpContext E D
new_context E D d = record { uri = none; should_modify_response = false; custom_data = d }

-- A handler receives the context and gives it back as it left it.
pub record HttpHandler (E : Env) (D : Type 0) : Type 0 where
  pub default_data : D
  pub handle_request : HttpContext E D → Request E → Io E (HttpContext E D × RequestOrResponse E)
  pub handle_response : HttpContext E D → Response E → Io E (Response E)

-- The handler with the trait's own methods.
abbrev pub default_handler : (E : Env) (D : Type 0) → D → HttpHandler E D
default_handler E D d = record {
  default_data = d;
  handle_request = λ ctx req. pure (ctx, request req);
  handle_response = λ ctx res. pure res;
}
