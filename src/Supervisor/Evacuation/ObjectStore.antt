-- ===== src/Supervisor/Evacuation/ObjectStore.antt =====
-- supervisor/internal/evacuation/s3.go: the client of the object store. The store itself, behind
-- HTTP, is a parameter that answers a request; signing a request leaves its meaning alone and is
-- not modelled.
use parallel_workspace_serve.Prelude.{
  ℕ, Bool, true, false, Option, ◌==◌, leb, if◌then◌else◌, [], length,
}
use parallel_workspace_serve.Prelude.Outcome.{M, ok, err, return, fail}
use parallel_workspace_serve.Supervisor.Evacuation.DirtyPaths.{Bytes}

pub record Destination : Type 0 where
  pub endpoint : Bytes
  pub bucket : Bytes
  pub access_key : Bytes
  pub secret_key : Bytes

abbrev pub is_unset : Bytes → Bool
is_unset s = length s == 0

unfoldable pub validate : {S : Type 0} → Destination → M S (Unit {0})
validate c =
    if is_unset c.endpoint
    then fail "evacuation: object store endpoint is not configured"
    else (if is_unset c.bucket
        then fail "evacuation: object store bucket is not configured"
        else (if is_unset c.access_key
            then fail "evacuation: object store access key is not configured"
            else (if is_unset c.secret_key
                then fail "evacuation: object store secret key is not configured"
                else return tt)))

-- The objects by key.
abbrev pub Objects : Type 0
Objects = Bytes → Option Bytes

pub data Request : Type 0 where
  put : Bytes → Bytes → Request
  get head : Bytes → Request

-- What comes back: nothing, a status with a body, or a status whose body breaks off.
pub data Response : Type 0 where
  no_answer : Response
  response : ℕ → Bytes → Response
  broken_off : ℕ → Response

abbrev pub Server : Type 0
Server = Request → Objects → Response × Objects

-- A PUT is judged by the status alone.
abbrev put_result : ℕ → Objects → Bytes → M Objects ℕ
put_result status objects body before =
    if leb 300 status then err "evacuation: put" objects else ok (length body) objects

unfoldable pub put_answered : Response × Objects → Bytes → M Objects ℕ
put_answered (no_answer, objects) body before = err "evacuation: put" objects
put_answered (response status text, objects) body before = put_result status objects body before
put_answered (broken_off status, objects) body before = put_result status objects body before

-- `body` is the content of the file; the size is returned.
unfoldable pub put_file : Server → Bytes → Bytes → M Objects ℕ
unfolding put_answered
put_file server key body objects = put_answered (server (put key body) objects) body objects

-- The content of the file that is written; its length is the size. A key that is missing gives
-- an empty file.
unfoldable pub get_answered : Response × Objects → M Objects Bytes
get_answered (no_answer, objects) before = err "evacuation: get" objects
get_answered (response status body, objects) before =
    if status == 404
    then ok [] objects
    else (if leb 300 status then err "evacuation: get" objects else ok body objects)
get_answered (broken_off status, objects) before =
    if status == 404 then ok [] objects else err "evacuation: get" objects

unfoldable pub get_file : Server → Bytes → M Objects Bytes
unfolding get_answered
get_file server key objects = get_answered (server (get key) objects) objects

abbrev head_result : ℕ → Objects → M Objects Bool
head_result status objects before =
    if status == 404
    then ok false objects
    else (if leb 300 status then err "evacuation: head" objects else ok true objects)

unfoldable pub head_answered : Response × Objects → M Objects Bool
head_answered (no_answer, objects) before = err "evacuation: head" objects
head_answered (response status body, objects) before = head_result status objects before
head_answered (broken_off status, objects) before = head_result status objects before

unfoldable pub head_object : Server → Bytes → M Objects Bool
unfolding head_answered
head_object server key objects = head_answered (server (head key) objects) objects
