-- ===== src/Gateway/Routing.antt =====
-- handler.go: `Routes`. The multiplexer of net/http answers a request that no pattern fits, and a
-- pattern of GET takes HEAD too.
use parallel_workspace_serve.Prelude.{
  String, Bool, true, false, List, [], ◌∷◌, ◌&&◌, str_eq, if◌then◌else◌, is_blank, not,
}
use parallel_workspace_serve.Gateway.Identity.{Method, get, head, post, delete}

pub data Route : Type 0 where
  healthz version terminal session_socket handover login logout me change_password : Route
  list_workspaces create_workspace issue_certificate : Route
  delete_workspace session_status : String → Route
  -- No pattern of the outer multiplexer, or none below /api/.
  no_route no_api_route : Route

abbrev pub is_get : Method → Bool
is_get get = true
is_get head = true
is_get method = false

abbrev pub is_post : Method → Bool
is_post post = true
is_post method = false

abbrev pub is_delete : Method → Bool
is_delete delete = true
is_delete method = false

unfoldable pub api_route : Method → List String → Route
api_route method (s ∷ []) =
    if str_eq s "workspaces" && is_get method
    then list_workspaces
    else (if str_eq s "workspaces" && is_post method then create_workspace else no_api_route)
api_route method (s ∷ t ∷ []) =
    if str_eq s "workspaces" && not (is_blank t) && is_delete method
    then delete_workspace t
    else (if str_eq s "ssh" && str_eq t "certificate" && is_post method
        then issue_certificate
        else no_api_route)
api_route method (s ∷ t ∷ u ∷ []) =
    if str_eq s "workspaces" && not (is_blank t) && str_eq u "session" && is_get method
    then session_status t
    else no_api_route
api_route method segments = no_api_route

unfoldable pub auth_route : Method → String → Route
auth_route method s =
    if str_eq s "login" && is_post method
    then login
    else (if str_eq s "logout" && is_post method
        then logout
        else (if str_eq s "me" && is_get method
            then me
            else (if str_eq s "password" && is_post method then change_password else no_route)))

unfoldable pub top_route : Method → String → Route
top_route method s =
    if str_eq s "healthz" && is_get method
    then healthz
    else (if str_eq s "version" && is_get method
        then version
        else (if is_blank s && is_get method
            then terminal
            else (if str_eq s "ws" && is_get method
                then session_socket
                else (if str_eq s "handover" && is_post method then handover else no_route))))

abbrev pub one_segment : List String → Route → Route
one_segment [] found = found
one_segment (s ∷ rest) found = no_route

-- A path below /api/, or /auth/ and one more segment.
unfoldable pub lower_route : Method → String → List String → Route
unfolding api_route auth_route
lower_route method s [] = top_route method s
lower_route method s (t ∷ rest) =
    if str_eq s "api"
    then api_route method (t ∷ rest)
    else (if str_eq s "auth" then one_segment rest (auth_route method t) else no_route)

unfoldable pub route : Method → List String → Route
unfolding lower_route top_route
route method [] = no_route
route method (s ∷ rest) = lower_route method s rest
