-- ===== src/Server/Routes.antt =====
-- The route table of internal/server/server.go behind its guards.
use dokkup.Common.{
  ℕ, Bool, true, false, ◌&&◌, Option, if◌then◌else◌, ◌==◌, Text, number_key, text_key,
}
use dokkup.Common.Strings.{codes}
use dokkup.Server.Guards.{Method, get, head, post, Request, guarded}
use dokkup.Server.Handler.{Env, State, H, respond, handle}
use dokkup.Server.Http.{post_only, Response, refusal}
use dokkup.Server.Setup.{SetupRequest, setup}
use dokkup.Server.SignIn.{SigninRequest, sign_in}
use dokkup.Server.SignOut.{sign_out}
use dokkup.Server.Status.{health, session_status}
use dokkup.Store.Schema.{Operator}

-- One exchange: the request, when it came, what its body decoded to for the two routes that read one,
-- and what Dokku's client and the file server of static.go would answer.
pub record Exchange : Type 0 where
  pub request : Request
  pub at : ℕ
  pub setup_body : Option SetupRequest
  pub signin_body : Option SigninRequest
  pub dokku : Option (Option Text)
  pub file : Response

-- a GET pattern of net/http also takes HEAD
abbrev reads : Method → Bool
reads get = true
reads head = true
reads _ = false

abbrev posts : Method → Bool
posts post = true
posts _ = false

-- methodNotAllowed
unfoldable pub method_not_allowed : H (Unit {0})
method_not_allowed = respond (refusal 405 post_only)

-- a path that has a pattern for POST and one for every other method
abbrev on_post : Method → H (Unit {0}) → H (Unit {0})
on_post m h = if posts m then h else method_not_allowed

-- routes
unfoldable pub mux : Exchange → Request → Option Operator → H (Unit {0})
mux x r operator =
    if r.path == codes "/api/health" && reads r.method
    then health x.dokku
    else if r.path == codes "/api/session" && reads r.method
    then session_status operator
    else if r.path == codes "/api/setup"
    then on_post r.method (setup x.at x.setup_body)
    else if r.path == codes "/api/signin"
    then on_post r.method (sign_in x.at x.signin_body)
    else if r.path == codes "/api/signout"
    then on_post r.method (sign_out r.cookie operator)
    else respond x.file

-- Server.Handler, asked once
unfoldable pub serve : Exchange → Env → State → Response × State
unfolding mux guarded handle
serve x = handle (guarded (mux x) x.request)
