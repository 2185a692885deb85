-- ===== src/Server/Handler.antt =====
-- A handler of internal/server: it reads its environment, changes the server's state, and may answer
-- early. The state is the two rate limiters and the world of the store.
use dokkup.Common.{ℕ, Bool, if◌then◌else◌}
use dokkup.Server.Http.{Config, Secrets, no_content, Response, reply}
use dokkup.Server.RateLimit.{TokenBucket}
use dokkup.Store.Schema.{Result, Engine}
use dokkup.Store.Sql.{World, M, advance}

pub record Env : Type 0 where
  pub cfg : Config
  pub secrets : Secrets
  pub engine : Engine

pub record State : Type 0 where
  pub setup_limiter : TokenBucket
  pub signin_limiter : TokenBucket
  pub world : World

-- `answer` is the early return of a handler that has written its response
pub data Progress (A : Type 0) : Type 0 where
  answer : Response → Progress A
  go_on : A → Progress A

abbrev pub H : Type 0 → Type 0
H A = Env → State → Progress A × State

-- what follows a step that has been taken
abbrev pub proceed : {A B : Type 0} → Progress A × State → (A → H B) → Env → Progress B × State
proceed (answer r, s) f e = (answer r, s)
proceed (go_on a, s) f e = f a e s

infixl 5 ◌>>=◌ ◌>>◌
unfoldable pub ◌>>=◌ : {A B : Type 0} → H A → (A → H B) → H B
◌>>=◌ m f e s = proceed (m e s) f e

unfoldable pub ◌>>◌ : {A B : Type 0} → H A → H B → H B
unfolding ◌>>=◌
m >> k = m >>= λ _. k

unfoldable pub respond : {A : Type 0} → Response → H A
respond r e s = (answer r, s)

unfoldable pub respond_if : Bool → Response → H (Unit {0})
respond_if b r e s = (if b then answer r else go_on tt, s)

unfoldable pub asks : {A : Type 0} → (Env → A) → H A
asks f e s = (go_on (f e), s)

abbrev stored : {A : Type 0} → State → Result A × World → Progress (Result A) × State
stored s (r, w) = (go_on r, record s { world = w })

-- a call of the store, with its error as a value
unfoldable pub call : {A : Type 0} → M A → H (Result A)
call m e s = stored s (m e.engine s.world)

-- time.Now, and the number of the draw that happens at this moment
unfoldable pub time_now : H ℕ
time_now e s = (go_on (e.engine.clock s.world.tick), record s { world = advance s.world })

unfoldable pub draw : H ℕ
draw e s = (go_on s.world.tick, record s { world = advance s.world })

-- A handler always answers; `no_content` with status 200 is what net/http sends for one that does not.
abbrev pub finish : Progress (Unit {0}) × State → Response × State
finish (answer r, s) = (r, s)
finish (go_on a, s) = (reply 200 no_content, s)

unfoldable pub handle : H (Unit {0}) → Env → State → Response × State
handle m e s = finish (m e s)

-- To compute with handlers, a proof unfolds this one name.
unfoldable pub handling : Unit {0}
unfolding ◌>>=◌ ◌>>◌ respond respond_if asks call time_now draw handle
handling = tt
