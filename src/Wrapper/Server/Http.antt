-- ===== src/Wrapper/Server/Http.antt =====
-- internal/wrapper/server.go: the HTTP handlers, and the mux that they are registered in. JSON, and
-- what the mux answers for other paths, are parameters.
pub mod Served
use kruise_agents_nfs_csi.Prelude.{
  ℕ, ◌^◌, Bool, not, ◌||◌, [], ◌==◌, ltb, length, take, if◌then◌else◌,
}
use kruise_agents_nfs_csi.Go.Text.{Str, codes, str_eq, has_prefix, trim_prefix, trim_space}
use kruise_agents_nfs_csi.Go.Errors.{
  Err, Result, ok, err, bad_request, bad_source_sub_path, mount_disabled, node_operation, is, text,
  wrap, ◌>>◌, fail_if,
}
use kruise_agents_nfs_csi.Api.{MountRequest, MountResult, UnmountRequest, UnmountResult}
use kruise_agents_nfs_csi.Wrapper.Server.Base.{Server, World}
use kruise_agents_nfs_csi.Wrapper.Server.Mount.{mount}
use kruise_agents_nfs_csi.Wrapper.Server.Unmount.{unmount}

-- requestErrorStatus
unfoldable pub request_error_status : Err → ℕ
request_error_status e =
    if is bad_request e || is bad_source_sub_path e
    then 400
    else if is mount_disabled e
    then 503
    else if is node_operation e
    then 500
    else 403

unfoldable pub bearer : Str
unfolding codes
bearer = codes "Bearer "

-- bearerToken
unfoldable pub bearer_token : Str → Result Str
bearer_token header = do
  fail_if (header == []) (text "missing authorization header")
  fail_if (not (has_prefix header bearer)) (text "authorization header must use bearer token")
  let token = trim_space (trim_prefix header bearer)
  fail_if (token == []) (text "empty bearer token")
  ok token

unfoldable pub get_method : Str
unfolding codes
get_method = codes "GET"

unfoldable pub post_method : Str
unfolding codes
post_method = codes "POST"

-- What the server reads of an http.Request.
pub record HttpRequest : Type 0 where
  pub path : Str
  pub method : Str
  pub authorization : Str
  pub export_root_key : Str
  pub body : Str

-- What a decoder reads: the bytes up to the limit, and whether it meets an error behind them.
pub record Limited : Type 0 where
  pub bytes : Str
  pub cut : Bool

abbrev pub request_limit : ℕ
request_limit = 2 ^ 20

-- http.MaxBytesReader
unfoldable pub max_bytes_reader : ℕ → Str → Limited
unfolding take
max_bytes_reader limit body = record { bytes = take limit body; cut = ltb limit (length body) }

-- The status code, with the result or the error that the body carries.
pub record HttpResponse (A : Type 0) : Type 0 where
  pub status : ℕ
  pub body : Result A

abbrev pub write_error : {A : Type 0} → ℕ → Err → HttpResponse A
write_error status e = record { status = status; body = err e }

abbrev pub write_data : {A : Type 0} → A → HttpResponse A
write_data a = record { status = 200; body = ok a }

unfoldable pub write_result : {A : Type 0} → Result A → HttpResponse A
write_result (ok a) = write_data a
write_result (err e) = write_error (request_error_status e) e

module _ {S N : Type 0} (s : Server S N) where
  -- handleHealthz
  unfoldable pub handle_healthz : HttpRequest → HttpResponse Str
  handle_healthz r =
      if not (r.method == get_method)
      then write_error 405 (text "method not allowed")
      else write_data s.cfg.driver_name

  -- The handlers behind the method and the token: the body is decoded, the operation runs, and its
  -- error becomes a status.
  unfoldable pub run_decoded :
      {R A : Type 0}
      → (R → World S N → Result A × World S N)
      → Result R
      → World S N
      → HttpResponse A × World S N
  run_decoded operation (err e) w = (write_error 400 (wrap "invalid json request" e), w)
  run_decoded operation (ok request) w =
      let (result, w') = operation request w in (write_result result, w')

  unfoldable pub handle_post :
      {R A : Type 0}
      → (Str → R → World S N → Result A × World S N)
      → (Limited → Result R)
      → HttpRequest
      → World S N
      → HttpResponse A × World S N
  unfolding run_decoded
  handle_post operation decode r w =
      if not (r.method == post_method)
      then (write_error 405 (text "method not allowed"), w)
      else elim (bearer_token r.authorization) [
        | err e ↦ (write_error 401 e, w)
        | ok token ↦
            run_decoded (operation token) (decode (max_bytes_reader request_limit r.body)) w
      ]

  -- handleMount
  unfoldable pub handle_mount :
      (Limited → Result MountRequest)
      → HttpRequest
      → World S N
      → HttpResponse MountResult × World S N
  unfolding handle_post
  handle_mount decode r =
      handle_post (λ token request. mount s token r.export_root_key request) decode r

  -- handleUnmount
  unfoldable pub handle_unmount :
      (Limited → Result UnmountRequest)
      → HttpRequest
      → World S N
      → HttpResponse UnmountResult × World S N
  unfolding handle_post
  handle_unmount decode r = handle_post (λ token request. unmount s token request) decode r

-- The bytes of a response.
pub record Written : Type 0 where
  pub status : ℕ
  pub payload : Str

abbrev pub written : {A : Type 0} → (HttpResponse A → Str) → HttpResponse A → Written
written encode response = record { status = response.status; payload = encode response }

-- JSON, as the server uses it.
pub record ServerJson : Type 0 where
  pub decode_mount : Limited → Result MountRequest
  pub decode_unmount : Limited → Result UnmountRequest
  pub encode_health : HttpResponse Str → Str
  pub encode_mount : HttpResponse MountResult → Str
  pub encode_unmount : HttpResponse UnmountResult → Str

module _ {S N : Type 0} (s : Server S N) where
  -- ServeHTTP, with the patterns of NewServer; `elsewhere` is what the mux answers where none of
  -- them matches.
  unfoldable pub serve_http :
      ServerJson → (HttpRequest → Written) → HttpRequest → World S N → Written × World S N
  unfolding codes
  serve_http j elsewhere r w =
      if r.path == codes "/healthz"
      then (written j.encode_health (handle_healthz s r), w)
      else if r.path == codes "/v1/mount"
      then (let (response, v) = handle_mount s j.decode_mount r w in
          (written j.encode_mount response, v))
      else if r.path == codes "/v1/unmount"
      then (let (response, v) = handle_unmount s j.decode_unmount r w in
          (written j.encode_unmount response, v))
      else (elsewhere r, w)
