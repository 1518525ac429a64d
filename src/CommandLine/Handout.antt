-- ===== src/CommandLine/Handout.antt =====
-- The certificate that the proxy hands out is the file that `run` was given.
use good_mitm.Text.{Text}
use good_mitm.Env.{Env}
use good_mitm.Proxy.{Proxy}
