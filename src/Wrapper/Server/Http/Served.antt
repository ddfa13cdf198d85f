-- ===== src/Wrapper/Server/Http/Served.antt =====
-- internal/wrapper/server.go: what the POST handlers let through.
use kruise_agents_nfs_csi.Prelude.{
  ℕ, ◌≡◌, ◌⊎◌, inl, inr, refl, ◌≢◌, Bool, true, false, not, arith, ◌==◌, if◌then◌else◌,
}
use kruise_agents_nfs_csi.Go.Text.{Str, str_eq}
use kruise_agents_nfs_csi.Go.Errors.{Err, Result, ok, err, text}
use kruise_agents_nfs_csi.Api.{MountRequest, UnmountRequest}
use kruise_agents_nfs_csi.Wrapper.Server.Base.{Server, World}
use kruise_agents_nfs_csi.Wrapper.Server.Mount.{mount}
use kruise_agents_nfs_csi.Wrapper.Server.Unmount.{unmount}
use kruise_agents_nfs_csi.Wrapper.Server.Http.{
  HttpRequest, HttpResponse, Limited, max_bytes_reader, request_limit, post_method, bearer_token,
  write_result, run_decoded, handle_post, handle_mount, handle_unmount, write_error,
}

-- An answer without a result, and its status.
abbrev pub Refuses : {A : Type 0} → ℕ → HttpResponse A → Type 0
Refuses status response = elim response.body [ ok _ ↦ ⊥ | err _ ↦ response.status ≡ status ]

module _ {S N : Type 0} (s : Server S N) where
  -- The request has been a POST with a bearer token and a body that decodes, and the answer and the
  -- new state are those of the operation.
  pub record IsServed {R A : Type 0} (operation : Str → R → World S N → Result A × World S N)
      (decode : Limited → Result R) (r : HttpRequest) (w : World S N)
      (answer : HttpResponse A × World S N) : Type 0 where
    pub token : Str
    pub request : R
    pub post : r.method ≡ post_method
    pub bearer : bearer_token r.authorization ≡ ok token
    pub decoded : decode (max_bytes_reader request_limit r.body) ≡ ok request
    pub status_body : answer.0 ≡ write_result (operation token request w).0
    pub world : answer.1 ≡ (operation token request w).1

  -- Which answer a request gets is settled by the request alone: 405 exactly without the method POST,
  -- else 401 exactly where its header has no token, else 400 exactly where its body does not decode,
  -- the state unchanged each time, else the operation's answer.
  abbrev pub Handled :
      {R A : Type 0}
      → (Str → R → World S N → Result A × World S N)
      → (Limited → Result R)
      → HttpRequest
      → World S N
      → HttpResponse A × World S N
      → Type 0
  Handled operation decode r w answer =
      ((r.method ≢ post_method) × (answer.1 ≡ w) × (Refuses 405 answer.0))
      ⊎ ((r.method ≡ post_method)
          × ((e : Err) × (bearer_token r.authorization ≡ err e))
          × (answer.1 ≡ w)
          × (Refuses 401 answer.0))
      ⊎ ((r.method ≡ post_method)
          × ((token : Str) × (bearer_token r.authorization ≡ ok token))
          × ((e : Err) × (decode (max_bytes_reader request_limit r.body) ≡ err e))
          × (answer.1 ≡ w)
          × (Refuses 400 answer.0))
      ⊎ IsServed operation decode r w answer

  decoded-Handled :
      {R A : Type 0} (operation : Str → R → World S N → Result A × World S N)
      (decode : Limited → Result R) (r : HttpRequest) (w : World S N) (token : Str) (d : Result R)
      → r.method ≡ post_method
      → bearer_token r.authorization ≡ ok token
      → decode (max_bytes_reader request_limit r.body) ≡ d
      → Handled operation decode r w (run_decoded s (operation token) d w)
  unfolding run_decoded
  decoded-Handled operation decode r w token (err e) p b h =
      inr (inr (inl (p, (token, b), (e, h), refl, refl)))
  decoded-Handled operation decode r w token (ok request) p b h = inr (
      inr (
        inr (record {
          token = token;
          request = request;
          post = p;
          bearer = b;
          decoded = h;
          status_body = refl;
          world = refl;
        })))

  is_post : (m : Str) → not (m == post_method) ≡ false → m ≡ post_method
  is_post m h = ground arith

  is_no_post : (m : Str) → not (m == post_method) ≡ true → m ≢ post_method
  is_no_post m h e = ground arith

  handle_post-Handled :
      {R A : Type 0} (operation : Str → R → World S N → Result A × World S N)
      (decode : Limited → Result R) (r : HttpRequest) (w : World S N)
      → Handled operation decode r w (handle_post s operation decode r w)
  unfolding handle_post
  handle_post-Handled {R} {A} operation decode r w = go (not (r.method == post_method)) refl
    where
      tokened :
          (t : Result Str)
          → r.method ≡ post_method
          → bearer_token r.authorization ≡ t
          → Handled operation decode r w (elim t [
            | err e ↦ (write_error 401 e, w)
            | ok token ↦
                run_decoded s (operation token) (decode (max_bytes_reader request_limit r.body)) w
          ])
      tokened (err e) p b = inr (inl (p, (e, b), refl, refl))
      tokened (ok token) p b =
          decoded-Handled operation decode r w token
            (decode (max_bytes_reader request_limit r.body)) p b refl

      go :
          (b : Bool)
          → not (r.method == post_method) ≡ b
          → Handled operation decode r w (
              if b
              then (write_error 405 (text "method not allowed"), w)
              else elim (bearer_token r.authorization) [
                | err e ↦ (write_error 401 e, w)
                | ok token ↦
                    run_decoded s
                      (operation token)
                      (decode (max_bytes_reader request_limit r.body))
                      w
              ])
      go true h = inl (is_no_post r.method h, refl, refl)
      go false h = tokened (bearer_token r.authorization) (is_post r.method h) refl

  -- A request that is no POST is answered 405 by the mount handler; a POST without a bearer token,
  -- 401; one with a token whose body, cut at 1 MiB, does not decode, 400; and the state stays as it was. Any other
  -- request gets the answer of mount, with the status that its error stands for, and the state is
  -- what mount leaves.
  pub handle_mount-Handled :
      (decode : Limited → Result MountRequest) (r : HttpRequest) (w : World S N)
      → Handled
          (λ token request. mount s token r.export_root_key request)
          decode
          r
          w
          (handle_mount s decode r w)
  unfolding handle_mount
  handle_mount-Handled decode r w =
      handle_post-Handled (λ token request. mount s token r.export_root_key request) decode r w

  -- The unmount handler does the same with unmount.
  pub handle_unmount-Handled :
      (decode : Limited → Result UnmountRequest) (r : HttpRequest) (w : World S N)
      → Handled (λ token request. unmount s token request) decode r w (handle_unmount s decode r w)
  unfolding handle_unmount
  handle_unmount-Handled decode r w =
      handle_post-Handled (λ token request. unmount s token request) decode r w
