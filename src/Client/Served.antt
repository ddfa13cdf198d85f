-- ===== src/Client/Served.antt =====
-- The client of mounter/client.go against the handler of internal/wrapper/server.go.
use kruise_agents_nfs_csi.Prelude.{
  ℕ, ◌≡◌, ◌≢◌, ◌≤◌, refl, sym, ap, ◌∙◌, subst, Bool, true, false, [], ◌∷◌, ◌++◌, Option, none, some,
  arith, nat_eq, leb, All, All-append, length, take, take-all, ℕ_discrete, ◌==◌, if◌then◌else◌,
}
use kruise_agents_nfs_csi.Go.Text.{Str, codes, str_eq, str_dec}
use kruise_agents_nfs_csi.Go.Errors.{Err, Result, ok, err, map_err, wrap, text}
use kruise_agents_nfs_csi.Go.Exec.{Exec, lift, continue, ◌>>=◌}
use kruise_agents_nfs_csi.Api.{MountRequest, MountResult}
use kruise_agents_nfs_csi.Wrapper.Server.Base.{Server, World}
use kruise_agents_nfs_csi.Wrapper.Server.Mount
use kruise_agents_nfs_csi.Wrapper.Server.Http.{
  HttpRequest, HttpResponse, ServerJson, Written, written, request_limit, max_bytes_reader, bearer,
  bearer_token, post_method, handle_post, handle_mount, run_decoded, write_result, write_data,
  request_error_status, serve_http,
}
use kruise_agents_nfs_csi.Client.{
  Client, ClientMountRequest, max_response_size, Message, Reply, Envelope, message, mount_message,
  mount_payload, validate_request, read_token, read_export_root_key, read_reply, decode_content,
  unless_empty, call, mount,
}
use kruise_agents_nfs_csi.Client.Token.{IsVisible, bearer_token-visible}

request_error_status-refused : (e : Err) → leb 300 (request_error_status e) ≡ true
unfolding request_error_status
request_error_status-refused e = ground arith

read_token_some :
    (read_file : Str → Result Str) (c : Client) (token : Str)
    → read_token read_file c ≡ ok token
    → token ≢ []
unfolding read_token unless_empty
read_token_some read_file c token h = ground (arith, h)

-- JSON, as the two sides use it.
pub record Json : Type 0 where
  pub server : ServerJson
  pub encode_request : MountRequest → Result Str
  pub decode_envelope : Str → Result Envelope
  pub decode_result : Str → Result MountResult

-- The request's JSON keeps within the server's limit, and decodes to the request again, as JSON of
-- valid UTF-8 does.
pub record IsSent (j : Json) (r : MountRequest) : Type 0 where
  pub body : Str
  pub encoded : j.encode_request r ≡ ok body
  pub short : length body ≤ request_limit
  pub decoded : j.server.decode_mount (record { bytes = body; cut = false }) ≡ ok r

-- So it is with the reply for a result: the client's limit, and then its two decoders.
pub record IsReadable (j : Json) (a : MountResult) : Type 0 where
  pub short : length (j.server.encode_mount (write_data a)) ≤ max_response_size
  pub envelope : Envelope
  pub opened : j.decode_envelope (j.server.encode_mount (write_data a)) ≡ ok envelope
  pub filled : envelope.content ≢ []
  pub read : j.decode_result envelope.content ≡ ok a

-- What a header's value may hold, whatever the header.
abbrev pub IsHeaderText : Str → Type 0
IsHeaderText = All (λ c. (0x20 ≤ c) × (c ≤ 0x7e))

visible-IsHeaderText : (s : Str) → All IsVisible s → IsHeaderText s
visible-IsHeaderText [] v = tt
visible-IsHeaderText (c ∷ s) v = ((omega (arith, v.0.0), v.0.1), visible-IsHeaderText s v.1)

abbrev body_of : Option Str → Str
body_of none = []
body_of (some body) = body

module _ {S N : Type 0} (s : Server S N) (j : Json) (elsewhere : HttpRequest → Written)
    (check_headers : Message → Result (Unit {0})) where
  abbrev as_request : Message → HttpRequest
  as_request m = record {
    path = m.endpoint;
    method = m.method;
    authorization = m.authorization;
    export_root_key = m.export_root_key;
    body = body_of m.body;
  }

  abbrev deliver : Message → Exec (World S N) Reply
  deliver m w =
      let (response, after) = serve_http s j.server elsewhere (as_request m) w in
      (ok (record { status = response.status; body = ok response.payload }), after)

  -- The socket: net/http checks the headers, then the server's mux serves the message.
  abbrev pub socket : Message → Exec (World S N) Reply
  socket m = lift (check_headers m) >>= λ _. deliver m

  -- The client's answer says what the server's does; of an error it says that it is one.
  pub Answers : Result MountResult → Result MountResult → Type 0
  Answers (ok a) r = r ≡ ok a
  Answers (err e) r = (f : Err) × (r ≡ err f)

  reply-Answers :
      (r : Result MountResult)
      → ((a : MountResult) → r ≡ ok a → IsReadable j a)
      → Answers r (
          read_reply j.decode_envelope j.decode_result
            (write_result r).status
            (take max_response_size (j.server.encode_mount (write_result r))))
  unfolding Answers read_reply write_result decode_content
  reply-Answers (ok a) readable =
      let h = readable a refl in
      ground (
        arith,
        take-all max_response_size (j.server.encode_mount (write_data a)) h.short,
        h.opened,
        h.filled,
        h.read,
      )
  reply-Answers (err e) readable =
      (text "wrapper rejected request", ground (arith, request_error_status-refused e))

  bind-lift :
      {A B : Type 0} (r : Result A) (a : A) (f : A → Exec (World S N) B) (w : World S N)
      → r ≡ ok a
      → (lift r >>= f) w ≡ f a w
  bind-lift r a f w h = ap (λ x. continue x f w) h

  authorization-visible :
      (c : Client) (token key body : Str)
      → token ≢ []
      → All IsVisible token
      → bearer_token (mount_message c token key body).authorization ≡ ok token
  unfolding mount_message message bearer
  authorization-visible c token key body n v = ground (arith, n, bearer_token-visible token n v)

  authorization-IsHeaderText :
      (c : Client) (token key body : Str)
      → token ≢ []
      → All IsVisible token
      → IsHeaderText (mount_message c token key body).authorization
  unfolding mount_message message codes
  authorization-IsHeaderText c token key body n v = by_token (token == [])
    where
      scheme : IsHeaderText (codes "Bearer ")
      scheme = ground arith

      by_token : (b : Bool) → IsHeaderText (if b then [] else codes "Bearer " ++ token)
      by_token true = tt
      by_token false = All-append _ (codes "Bearer ") token scheme (visible-IsHeaderText token v)

  key_header :
      (c : Client) (token key body : Str)
      → IsHeaderText key
      → IsHeaderText (mount_message c token key body).export_root_key
  unfolding mount_message message
  key_header c token key body h = h

  whole_body :
      (limit : ℕ) (body : Str)
      → length body ≤ limit
      → max_bytes_reader limit body ≡ record { bytes = body; cut = false }
  unfolding max_bytes_reader
  whole_body limit body h = ground (arith, h, take-all limit body h)

  -- The handler on the client's message.
  handled :
      (c : Client) (token key body : Str) (r : MountRequest) (w : World S N)
      → bearer_token (mount_message c token key body).authorization ≡ ok token
      → j.server.decode_mount (max_bytes_reader request_limit body) ≡ ok r
      → handle_mount s j.server.decode_mount (as_request (mount_message c token key body)) w
        ≡ (write_result (Mount.mount s token key r w).0, (Mount.mount s token key r w).1)
  unfolding handle_mount handle_post mount_message message post_method codes run_decoded
  handled c token key body r w h k = ground (arith, h, k)

  -- The mux chooses that handler.
  routed :
      (c : Client) (token key body : Str) (w : World S N)
      → serve_http s j.server elsewhere (as_request (mount_message c token key body)) w ≡ (
          let (response, v) =
            handle_mount s j.server.decode_mount (as_request (mount_message c token key body)) w in
          (written j.server.encode_mount response, v))
  unfolding serve_http mount_message message codes str_dec ℕ_discrete
  routed c token key body w = refl

  -- The whole way: the checks, the mux, the handler.
  delivered :
      (c : Client) (token key body : Str) (r : MountRequest) (w : World S N)
      → check_headers (mount_message c token key body) ≡ ok tt
      → bearer_token (mount_message c token key body).authorization ≡ ok token
      → j.server.decode_mount (max_bytes_reader request_limit body) ≡ ok r
      → socket (mount_message c token key body) w ≡ (
          let served = Mount.mount s token key r w in
          (
            ok (record {
              status = (write_result served.0).status;
              body = ok (j.server.encode_mount (write_result served.0));
            }),
            served.1,
          ))
  delivered c token key body r w checked h k =
      bind-lift (check_headers (mount_message c token key body)) tt
        (λ _. deliver (mount_message c token key body)) w checked
      ∙ ap replied (routed c token key body w)
      ∙ ap answered (handled c token key body r w h k)
    where
      replied : Written × World S N → Result Reply × World S N
      replied x = (ok (record { status = x.0.status; body = ok x.0.payload }), x.1)

      answered : HttpResponse MountResult × World S N → Result Reply × World S N
      answered x = replied (written j.server.encode_mount x.0, x.1)

  -- If net/http lets every message through whose Authorization and export-root key hold printable
  -- ASCII; if the client's request is complete, its token file contains visible text, perhaps within
  -- white space, and the file of the export-root key is not configured or reads as the given
  -- printable key; and if the JSON of the request decodes to the request again and has at most 1 MiB,
  -- and so it is with the reply for the result, where there is one; then calling the client's Mount
  -- against the wrapper's mux changes the wrapper exactly as the wrapper's mount does for that token,
  -- that key and the client's fields, and the client returns the result of mount, or an error where
  -- mount has one.
  pub mount-Answers :
      (read_file : Str → Result Str) (c : Client) (request : ClientMountRequest) (w : World S N)
      (token key : Str)
      → ((m : Message)
          → IsHeaderText m.authorization
          → IsHeaderText m.export_root_key
          → check_headers m ≡ ok tt)
      → validate_request request.namespace request.pod_name request.pod_uid request.pv_name
          request.target_path
        ≡ ok tt
      → read_token read_file c ≡ ok token
      → All IsVisible token
      → read_export_root_key read_file c ≡ ok key
      → IsHeaderText key
      → IsSent j (mount_payload c request)
      → ((a : MountResult)
          → (Mount.mount s token key (mount_payload c request) w).0 ≡ ok a
          → IsReadable j a)
      → let answer =
          mount socket j.decode_envelope read_file j.encode_request j.decode_result c request w in
        let served = Mount.mount s token key (mount_payload c request) w in
        (answer.1 ≡ served.1) × Answers served.0 answer.0
  unfolding mount call
  mount-Answers read_file c request w token key allowed valid has_token visible has_key key_text
        sent readable =
      subst (λ x. (x.1 ≡ served.1) × Answers served.0 x.0) (sym run)
        (refl, reply-Answers served.0 readable)
    where
      payload : MountRequest
      payload = mount_payload c request

      served : Result MountResult × World S N
      served = Mount.mount s token key payload w

      -- What call makes of a reply.
      finish : Result Reply × World S N → Result MountResult × World S N
      finish x =
          call (λ m v. x) j.decode_envelope read_file j.decode_result
            (mount_message c token key sent.body) w

      post : Str → Str → Str → Exec (World S N) MountResult
      post t k b = call socket j.decode_envelope read_file j.decode_result (mount_message c t k b)

      with_key : Str → Str → Exec (World S N) MountResult
      with_key t k =
          lift (map_err (wrap "marshal mount request") (j.encode_request payload)) >>= post t k

      with_token : Str → Exec (World S N) MountResult
      with_token t = lift (read_export_root_key read_file c) >>= with_key t

      checked : check_headers (mount_message c token key sent.body) ≡ ok tt
      checked =
          allowed (mount_message c token key sent.body)
            (authorization-IsHeaderText c token key sent.body
              (read_token_some read_file c token has_token) visible)
            (key_header c token key sent.body key_text)

      run :
          mount socket j.decode_envelope read_file j.encode_request j.decode_result c request w
          ≡ finish (
            ok (record {
              status = (write_result served.0).status;
              body = ok (j.server.encode_mount (write_result served.0));
            }),
            served.1,
          )
      run =
          bind-lift
            (validate_request request.namespace request.pod_name request.pod_uid request.pv_name
              request.target_path)
            tt (λ _. lift (read_token read_file c) >>= with_token) w valid
          ∙ bind-lift (read_token read_file c) token with_token w has_token
          ∙ bind-lift (read_export_root_key read_file c) key (with_key token) w has_key
          ∙ bind-lift (map_err (wrap "marshal mount request") (j.encode_request payload)) sent.body
              (post token key) w (ap (map_err (wrap "marshal mount request")) sent.encoded)
          ∙ ap finish (
              delivered c token key sent.body payload w checked
                (authorization-visible c token key sent.body
                  (read_token_some read_file c token has_token) visible)
                (ap j.server.decode_mount (whole_body request_limit sent.body sent.short)
                  ∙ sent.decoded))
