-- ===== src/Node/Linux/Returned.antt =====
-- The thread behind Mount and Unmount: the descriptors it holds.
use kruise_agents_nfs_csi.Prelude.{
  ℕ, ◌≡◌, refl, sym, ap, ◌∙◌, subst, Bool, true, false, [], ◌∷◌, Option, none, some, ◌==◌,
  if◌then◌else◌,
}
use kruise_agents_nfs_csi.Go.Text.{Str, str_eq}
use kruise_agents_nfs_csi.Go.Errors.{Err, Result, ok, err, wrap, map_err}
use kruise_agents_nfs_csi.Go.Exec.{Exec, on_error, continue, ◌>>=◌}
use kruise_agents_nfs_csi.Node.{NodeConfig}
use kruise_agents_nfs_csi.Node.System.{
  Kernel, Thread, Attributes, Open, IsUnused, drop_fd, referent, call, call_with, with_referent,
  open_fd, close_fd, defer, hold,
}
use kruise_agents_nfs_csi.Node.System.Held.{Keeps, held, drop_fd-head}
use kruise_agents_nfs_csi.Node.Tree.{open_directory_no_follow}
use kruise_agents_nfs_csi.Node.Tree.Entered.{Outcome}
use kruise_agents_nfs_csi.Node.Tree.Walked.{Reached, drop_fd-next, open_directory_no_follow-Outcome}
use kruise_agents_nfs_csi.Node.Namespaces.Returned.{
  move_mount_into_container_namespace-held, legacy_bind_mount_into_container_namespace-held,
}
use kruise_agents_nfs_csi.Node.Linux.{
  open_tree_mount_source, bind_mount_with_modern_api, bind_mount_with_legacy_api, legacy_path,
}

module _ {D P : Type 0} (k : Kernel D P) where
  -- A call that leaves open at most the descriptor that it returns.
  abbrev pub Gives : Exec (Thread D P) ℕ → Type 0
  Gives m = (t : Thread D P) → Outcome k (λ _. Unit {0}) t.held (m t)

  -- With that one closed in the end, none is left.
  pub Gives-held :
      (m : Exec (Thread D P) ℕ) (body : ℕ → Exec (Thread D P) (Unit {0}))
      → Gives m
      → ((fd : ℕ) → Keeps held (body fd))
      → Keeps held (m >>= λ fd. defer (close_fd fd) (body fd))
  unfolding Outcome defer close_fd
  Gives-held m body h keeps t = go (m t) (h t)
    where
      go :
          (x : Result ℕ × Thread D P)
          → Outcome k (λ _. Unit {0}) t.held x
          → (continue x.0 (λ fd. defer (close_fd fd) (body fd)) x.1).1.held ≡ t.held
      go (err e, u) o = o
      go (ok fd, u) (p, (_, o)) = ap (drop_fd fd) (keeps fd u ∙ o) ∙ drop_fd-head fd p t.held

  open_fd-Gives :
      (note : Err → Err) (f : Attributes P → Exec D P) → Gives (on_error note (open_fd k f))
  unfolding Outcome open_fd call
  open_fd-Gives note f t =
      go (f t.attributes t.disk).0 (record t { disk = (f t.attributes t.disk).1 }) refl
    where
      go :
          (r : Result P) (u : Thread D P)
          → u.held ≡ t.held
          → Outcome k (λ _. Unit {0}) t.held (map_err note (hold k r u).0, (hold k r u).1)
      go (err e) u same = same
      go (ok p) u same = (p, (tt, ap (λ rest. (k.next_fd u.disk u.held, p) ∷ rest) same))

  module _ (fresh : (d : D) (held : Open P) → IsUnused (k.next_fd d held) held) where
    pub open_directory_no_follow-Gives :
        (stage_path source_sub_path : Str) (create : Bool) (mode : ℕ)
        → Gives (open_directory_no_follow k stage_path source_sub_path create mode)
    unfolding Outcome
    open_directory_no_follow-Gives stage_path source_sub_path create mode t =
        go (open_directory_no_follow k stage_path source_sub_path create mode t)
          (open_directory_no_follow-Outcome k fresh stage_path source_sub_path create mode t)
      where
        go :
            (x : Result ℕ × Thread D P)
            → Outcome k (Reached k stage_path source_sub_path t.attributes) t.held x
            → Outcome k (λ _. Unit {0}) t.held x
        go (err e, u) o = o
        go (ok fd, u) (p, (_, o)) = (p, (tt, o))

    -- The mount's descriptor stays, and that of the directory it was cloned from goes.
    cloned-Gives :
        (fd : ℕ) (p : P) (rest : Open P) (t : Thread D P)
        → t.held ≡ (fd, p) ∷ rest
        → Outcome k
            (λ _. Unit {0})
            rest
            (defer
              (close_fd fd)
              (on_error
                (wrap "clone staged source_sub_path")
                (call_with fd (λ source. open_fd k (λ _. k.open_tree_at source))))
              t)
    unfolding Outcome defer close_fd call_with open_fd call
    cloned-Gives fd p rest t h = by_referent (referent fd t.held)
      where
        Goal : Result ℕ × Thread D P → Type 0
        Goal x =
            Outcome k (λ _. Unit {0}) rest
              (map_err (wrap "clone staged source_sub_path") x.0, close_fd fd x.1)

        by_call : (r : Result P) (u : Thread D P) → u.held ≡ t.held → Goal (hold k r u)
        by_call (err e) u same = ap (drop_fd fd) (same ∙ h) ∙ drop_fd-head fd p rest
        by_call (ok q) u same =
            let unused =
              subst (IsUnused (k.next_fd u.disk u.held)) (same ∙ h) (fresh u.disk u.held) in
            (
              q,
              (
                tt,
                ap (λ rest. drop_fd fd ((k.next_fd u.disk u.held, q) ∷ rest)) (same ∙ h)
                    ∙ drop_fd-next (k.next_fd u.disk u.held) fd q ((fd, p) ∷ rest)
                        (λ e. unused.0 (sym e))
                    ∙ ap (λ rest. (k.next_fd u.disk u.held, q) ∷ rest) (drop_fd-head fd p rest),
              ),
            )

        by_referent :
            (o : Option P)
            → Goal (with_referent o (λ source. open_fd k (λ _. k.open_tree_at source)) t)
        by_referent none = ap (drop_fd fd) h ∙ drop_fd-head fd p rest
        by_referent (some source) =
            by_call (k.open_tree_at source t.disk).0
              (record t { disk = (k.open_tree_at source t.disk).1 }) refl

    open_tree_mount_source-Gives :
        (stage_path source_sub_path : Str) (create : Bool) (mode : ℕ)
        → Gives (open_tree_mount_source k stage_path source_sub_path create mode)
    unfolding open_tree_mount_source Outcome
    open_tree_mount_source-Gives stage_path source_sub_path create mode t =
        by_path (source_sub_path == [])
      where
        clone : ℕ → Exec (Thread D P) ℕ
        clone fd = defer (close_fd fd) (
            on_error (wrap "clone staged source_sub_path")
              (call_with fd (λ source. open_fd k (λ _. k.open_tree_at source))))

        whole : Exec (Thread D P) ℕ
        whole = on_error (wrap "clone staged mount") (open_fd k (k.open_tree stage_path))

        below : Exec (Thread D P) ℕ
        below = open_directory_no_follow k stage_path source_sub_path create mode >>= clone

        go :
            (x : Result ℕ × Thread D P)
            → Outcome k (λ _. Unit {0}) t.held x
            → Outcome k (λ _. Unit {0}) t.held (continue x.0 clone x.1)
        go (err e, u) o = o
        go (ok fd, u) (p, (_, o)) = cloned-Gives fd p t.held u o

        by_path : (b : Bool) → Outcome k (λ _. Unit {0}) t.held ((if b then whole else below) t)
        by_path true = open_fd-Gives (wrap "clone staged mount") (k.open_tree stage_path) t
        by_path false =
            go (open_directory_no_follow k stage_path source_sub_path create mode t)
              (open_directory_no_follow-Gives stage_path source_sub_path create mode t)

    pub bind_mount_with_modern_api-held :
        (cfg : NodeConfig) (pid : ℕ) (stage_path source_sub_path target_path : Str)
        → Keeps held (bind_mount_with_modern_api k cfg pid stage_path source_sub_path target_path)
    unfolding bind_mount_with_modern_api
    bind_mount_with_modern_api-held cfg pid stage_path source_sub_path target_path =
        Gives-held
          (open_tree_mount_source k stage_path source_sub_path cfg.create_missing_sub_paths
            cfg.created_sub_path_mode)
          _
          (open_tree_mount_source-Gives stage_path source_sub_path cfg.create_missing_sub_paths
            cfg.created_sub_path_mode)
          (λ source_fd.
            move_mount_into_container_namespace-held k cfg.host_proc_root pid source_fd target_path)

    pub bind_mount_with_legacy_api-held :
        (cfg : NodeConfig) (pid : ℕ) (stage_path source_sub_path target_path : Str)
        → Keeps held (bind_mount_with_legacy_api k cfg pid stage_path source_sub_path target_path)
    unfolding bind_mount_with_legacy_api
    bind_mount_with_legacy_api-held cfg pid stage_path source_sub_path target_path =
        Gives-held
          (open_directory_no_follow k stage_path source_sub_path cfg.create_missing_sub_paths
            cfg.created_sub_path_mode)
          _
          (open_directory_no_follow-Gives stage_path source_sub_path cfg.create_missing_sub_paths
            cfg.created_sub_path_mode)
          (λ source_fd.
            legacy_bind_mount_into_container_namespace-held k cfg.host_proc_root pid
              (legacy_path k source_fd) target_path)
