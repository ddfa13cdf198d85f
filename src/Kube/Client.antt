-- ===== src/Kube/Client.antt =====
-- internal/kube/client.go: the calls of the API server. The transport, JSON and reading of files are
-- parameters.
use kruise_agents_nfs_csi.Prelude.{
  ℕ, not, ◌&&◌, ◌||◌, List, [], ◌∷◌, ◌++◌, Option, none, some, ltb, leb, ◌==◌, nat_eq,
  if◌then◌else◌,
}
use kruise_agents_nfs_csi.Go.Text.{Str, codes, str_eq, trim_space, has_prefix}
use kruise_agents_nfs_csi.Go.Search.{contains, path_join}
use kruise_agents_nfs_csi.Go.Errors.{Err, Result, ok, err, text, wrap, sentinel, not_found, map_err}
use kruise_agents_nfs_csi.Go.Exec.{Exec, lift, on_error, ◌>>=◌}
use kruise_agents_nfs_csi.Kube.{TokenReviewStatus, Pod, PersistentVolume}

-- Client; the REST interface of the informer is left out
pub record Client : Type 0 where
  pub base_url : Str
  pub token_file : Str

-- The request that do makes, and the response.
pub record Call : Type 0 where
  pub method : Str
  pub endpoint : Str
  pub accept : Str
  pub content_type : Str
  pub authorization : Str
  pub body : Option Str

pub record Answer : Type 0 where
  pub status : ℕ
  pub body : Str

-- The value of a token file: trimmed, and not empty.
abbrev token_of : Result Str → Result Str
token_of (err e) = err e
token_of (ok contents) =
    if trim_space contents == []
    then err (text "kubernetes token file is empty")
    else ok (trim_space contents)

-- readBearerTokenFile
unfoldable pub read_bearer_token_file : (Str → Result Str) → Str → Result Str
read_bearer_token_file read_file token_file =
    token_of (map_err (wrap "read kubernetes token file") (read_file token_file))

-- netJoinHostPort
unfoldable pub net_join_host_port : Str → Str → Str
net_join_host_port host port =
    if contains host (58 ∷ []) && not (has_prefix host (91 ∷ []))
    then (91 ∷ host) ++ (93 ∷ 58 ∷ port)
    else host ++ (58 ∷ port)

-- The APIError of a status; IsNotFound tells 404 from the others.
unfoldable pub api_error : ℕ → Err
api_error status = if status == 404 then sentinel not_found else text "kubernetes api error"

-- What do makes of an answer.
unfoldable pub read_answer : {A : Type 0} → (Str → Result A) → Answer → Result A
unfolding api_error
read_answer decode answer =
    if ltb answer.status 200 || leb 300 answer.status
    then err (api_error answer.status)
    else map_err (wrap "decode kubernetes response") (decode answer.body)

unfoldable pub content_type_of : Option Str → Str
unfolding codes
content_type_of none = []
content_type_of (some body) = codes "application/json"

-- The paths of a pod, a volume and a token review.
unfoldable pub pod_path : Str → Str → Str
unfolding codes path_join
pod_path namespace name =
    path_join (codes "/api/v1/namespaces" ∷ namespace ∷ codes "pods" ∷ name ∷ [])

unfoldable pub persistent_volume_path : Str → Str
unfolding codes path_join
persistent_volume_path name = path_join (codes "/api/v1/persistentvolumes" ∷ name ∷ [])

module _ {W : Type 0} (send : Call → Exec W Answer) (read_file : Str → Result Str)
    (c : Client) where
  -- (*Client) do, from the encoded payload on
  unfoldable pub do_call : {A : Type 0} → (Str → Result A) → Str → Str → Option Str → Exec W A
  unfolding codes read_bearer_token_file read_answer content_type_of
  do_call decode method resource_path body = do
    token ← lift (read_bearer_token_file read_file c.token_file)
    answer ← on_error (wrap "call kubernetes api") (
        send (record {
          method = method;
          endpoint = c.base_url ++ resource_path;
          accept = codes "application/json";
          content_type = content_type_of body;
          authorization = codes "Bearer " ++ token;
          body = body;
        }))
    lift (read_answer decode answer)

  -- (*Client) GetPod
  unfoldable pub get_pod : (Str → Result Pod) → Str → Str → Exec W Pod
  unfolding codes
  get_pod decode namespace name = do_call decode (codes "GET") (pod_path namespace name) none

  -- (*Client) GetPersistentVolume
  unfoldable pub get_persistent_volume :
      (Str → Result PersistentVolume) → Str → Exec W PersistentVolume
  unfolding codes
  get_persistent_volume decode name =
      do_call decode (codes "GET") (persistent_volume_path name) none

  -- (*Client) ReviewToken, on the encoded review
  unfoldable pub review_token :
      (Str → List Str → Result Str)
      → (Str → Result TokenReviewStatus)
      → Str
      → List Str
      → Exec W TokenReviewStatus
  unfolding codes
  review_token encode decode token audiences = do
    payload ← lift (map_err (wrap "marshal kubernetes request") (encode token audiences))
    do_call decode (codes "POST") (codes "/apis/authentication.k8s.io/v1/tokenreviews")
        (some payload)
