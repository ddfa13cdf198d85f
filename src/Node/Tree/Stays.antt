-- ===== src/Node/Tree/Stays.antt =====
-- openDirectoryNoFollow leaves the thread where it is.
use kruise_agents_nfs_csi.Prelude.{
  ℕ, ◌≡◌, refl, ◌∙◌, Bool, true, false, not, ◌&&◌, List, [], ◌∷◌, ◌==◌, nat_eq, if◌then◌else◌,
}
use kruise_agents_nfs_csi.Go.Text.{Str}
use kruise_agents_nfs_csi.Go.Errors.{Result, ok, err, is, no_entry, wrap}
use kruise_agents_nfs_csi.Go.Exec.{Exec, raise, lift, on_error, attempt, ◌>>=◌}
use kruise_agents_nfs_csi.Node.Segments.{source_sub_path_segments}
use kruise_agents_nfs_csi.Node.System.{
  Kernel, Thread, call, call_with, open_fd, close_fd, path_no_follow,
}
use kruise_agents_nfs_csi.Node.System.Held.{Keeps, bind-Keeps, call-attributes, call_with-Keeps}
use kruise_agents_nfs_csi.Node.System.Stays.{attributes, open_fd-attributes}
use kruise_agents_nfs_csi.Node.Tree.{
  open_segment, create_segment, after_open, enter_segment, leave, go_on, walk, tolerate,
  created_sub_path_unix_mode, source_sub_path_open_error, close_directory_walk_fds,
  open_directory_no_follow,
}

leave-attributes :
    {D P : Type 0} (dir current : ℕ) (t : Thread D P)
    → (leave dir current t).attributes ≡ t.attributes
unfolding close_fd
leave-attributes {D} {P} dir current t = go (current == dir)
  where
    go : (b : Bool) → (if b then t else close_fd current t).attributes ≡ t.attributes
    go true = refl
    go false = refl

module _ {D P : Type 0} (k : Kernel D P) where
  open_segment-attributes :
      (current : ℕ) (segment : Str) → Keeps attributes (open_segment k current segment)
  unfolding open_segment
  open_segment-attributes current segment =
      call_with-Keeps attributes current (λ p. open_fd k (λ _. k.open_at p segment))
        (λ p. open_fd-attributes k (λ _. k.open_at p segment))

  create_segment-attributes :
      (mode current : ℕ) (segment : Str) → Keeps attributes (create_segment k mode current segment)
  unfolding create_segment
  create_segment-attributes mode current segment =
      bind-Keeps attributes (attempt (call_with current make))
        (λ made. lift (tolerate made) >>= λ _. reopen)
        (call_with-Keeps attributes current make
          (λ p. call-attributes (λ _. k.mkdir_at p segment (created_sub_path_unix_mode mode))))
        (λ made.
          bind-Keeps attributes (lift (tolerate made)) (λ _. reopen) (λ t. refl)
            (λ _. open_segment-attributes current segment))
    where
      make : P → Exec (Thread D P) (Unit {0})
      make p = call (λ _. k.mkdir_at p segment (created_sub_path_unix_mode mode))

      reopen : Exec (Thread D P) ℕ
      reopen = on_error (source_sub_path_open_error false) (open_segment k current segment)

  after_open-attributes :
      (create : Bool) (mode current : ℕ) (segment : Str) (r : Result ℕ)
      → Keeps attributes (after_open k create mode current segment r)
  after_open-attributes create mode current segment (ok next) = λ t. refl
  after_open-attributes create mode current segment (err e) = go (is no_entry e && create)
    where
      go :
          (b : Bool)
          → Keeps attributes (
              if b
              then create_segment k mode current segment
              else raise (source_sub_path_open_error (not create) e))
      go true = create_segment-attributes mode current segment
      go false = λ t. refl

  enter_segment-attributes :
      (create : Bool) (mode current : ℕ) (segment : Str)
      → Keeps attributes (enter_segment k create mode current segment)
  unfolding enter_segment
  enter_segment-attributes create mode current segment =
      bind-Keeps attributes (attempt (open_segment k current segment))
        (after_open k create mode current segment) (open_segment-attributes current segment)
        (after_open-attributes create mode current segment)

  walk-attributes :
      (create : Bool) (mode dir current : ℕ) (segments : List Str)
      → Keeps attributes (walk k create mode dir current segments)
  unfolding walk close_fd close_directory_walk_fds
  walk-attributes create mode dir current [] t = go (current == dir)
    where
      result : Bool → Result ℕ × Thread D P
      result b = if b then (ok dir, t) else (ok current, close_fd dir t)

      go : (b : Bool) → (result b).1.attributes ≡ t.attributes
      go true = refl
      go false = refl
  walk-attributes create mode dir current (segment ∷ segments) t =
      go (enter_segment k create mode current segment t)
        (λ next. walk-attributes create mode dir next segments)
      ∙ enter_segment-attributes create mode current segment t
    where
      go :
          (x : Result ℕ × Thread D P)
          → ((next : ℕ) → Keeps attributes (walk k create mode dir next segments))
          → (go_on k dir current
              (λ next. walk k create mode dir next segments)
              x.0
              x.1).1.attributes
            ≡ x.1.attributes
      go (err e, u) rest = leave-attributes dir current u
      go (ok next, u) rest = rest next (leave dir current u) ∙ leave-attributes dir current u

  pub open_directory_no_follow-attributes :
      (stage_path source_sub_path : Str) (create : Bool) (mode : ℕ)
      → Keeps attributes (open_directory_no_follow k stage_path source_sub_path create mode)
  unfolding open_directory_no_follow
  open_directory_no_follow-attributes stage_path source_sub_path create mode =
      bind-Keeps attributes (lift (source_sub_path_segments source_sub_path))
        (λ segments. opened >>= λ dir. walk k create mode dir dir segments) (λ t. refl)
        (λ segments.
          bind-Keeps attributes opened (λ dir. walk k create mode dir dir segments)
            (open_fd-attributes k (k.open_file path_no_follow stage_path))
            (λ dir. walk-attributes create mode dir dir segments))
    where
      opened : Exec (Thread D P) ℕ
      opened =
          on_error (wrap "open staged mount") (open_fd k (k.open_file path_no_follow stage_path))
