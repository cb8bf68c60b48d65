-- ===== src/Gateway/Handler/Guarded.antt =====
-- handler.go and authroutes.go: what a request may cause, by who is behind it and by its method.
use parallel_workspace_serve.Prelude.{ℕ, Bool, true, false, Option, none, some, ◌≡◌, ◌⊎◌, any}
use parallel_workspace_serve.Gateway.Routing.{Route}
use parallel_workspace_serve.Gateway.Exchange.{Result, respond, Served, Handler, Call, look_up}

-- The routes that ask for no identity; a login identifies its caller by itself.
abbrev pub is_public : Route → Bool
is_public Route.healthz = true
is_public Route.version = true
is_public Route.login = true
is_public Route.no_route = true
is_public other = false

abbrev pub status_of : Result → Option ℕ
status_of (respond status body) = some status
status_of other = none

-- Anything but what is asked to identify the caller.
abbrev pub is_other : Call → Bool
is_other (look_up name) = false
is_other call = true

-- The two requests are answered alike, with no call but to identify the caller, and with 401 unless
-- the route is public.
abbrev pub Alike : Route → Served → Served → Type 0
Alike x a b =
    (any is_other a.calls ≡ false)
    × (a.result ≡ b.result)
    × ((is_public x ≡ true) ⊎ (status_of a.result ≡ some 401))
