-- ===== src/Node/Tree/Entered.antt =====
-- One pass of openDirectoryNoFollow's loop: what it opens, and which descriptors it leaves open.
use kruise_agents_nfs_csi.Prelude.{
  ℕ, ◌≡◌, refl, sym, ap, ◌∙◌, subst, Bool, true, false, not, ◌&&◌, List, [], ◌∷◌, some, nat_eq,
  if◌then◌else◌,
}
use kruise_agents_nfs_csi.Go.Text.{Str}
use kruise_agents_nfs_csi.Go.Errors.{Err, Result, ok, err, is, no_entry, map_err}
use kruise_agents_nfs_csi.Go.Exec.{Exec, raise, on_error, continue}
use kruise_agents_nfs_csi.Node.System.{
  Kernel, Thread, Open, IsUnused, referent, call, call_with, open_fd, hold, with_referent,
}
use kruise_agents_nfs_csi.Node.System.Held.{call_with-Keeps, call-held}
use kruise_agents_nfs_csi.Node.Tree.{
  open_segment, create_segment, enter_segment, after_open, created_sub_path_unix_mode, tolerate,
  source_sub_path_open_error,
}

module _ {D P : Type 0} (k : Kernel D P) where
  -- Each directory has been opened below the one before, by its name alone.
  pub data Walks : P → List Str → P → Type 0 where
    arrived : {p : P} → Walks p [] p
    below :
        {p q r : P} {segment : Str} {segments : List Str} (d : D)
        → (k.open_at p segment d).0 ≡ ok q
        → Walks q segments r
        → Walks p (segment ∷ segments) r

  -- No more descriptors are held than before, but the one that is returned.
  unfoldable pub Outcome : (P → Type 0) → Open P → Result ℕ × Thread D P → Type 0
  Outcome Q held (err e, t) = t.held ≡ held
  Outcome Q held (ok fd, t) = (p : P) × (Q p × (t.held ≡ (fd, p) ∷ held))

  module _ (fresh : (d : D) (held : Open P) → IsUnused (k.next_fd d held) held) where
    -- One directory opened below another.
    unfoldable pub Entered : P → Str → Open P → Result ℕ × Thread D P → Type 0
    Entered p segment held (err e, t) = t.held ≡ held
    Entered p segment held (ok fd, t) =
        (q : P) × (d : D) × (((k.open_at p segment d).0 ≡ ok q)
          × ((t.held ≡ (fd, q) ∷ held) × IsUnused fd held))

    open_segment-Entered :
        (current : ℕ) (segment : Str) (p : P) (t : Thread D P)
        → referent current t.held ≡ some p
        → Entered p segment t.held (open_segment k current segment t)
    unfolding open_segment Entered call_with open_fd call
    open_segment-Entered current segment p t h =
        subst
          (λ r.
            Entered p segment t.held
              (with_referent r (λ q. open_fd k (λ _. k.open_at q segment)) t))
          (sym h) (go (k.open_at p segment t.disk).0 refl)
      where
        go :
            (r : Result P)
            → (k.open_at p segment t.disk).0 ≡ r
            → Entered p segment t.held
                (hold k r (record t { disk = (k.open_at p segment t.disk).1 }))
        go (err e) re = refl
        go (ok q) re = (q, t.disk, (re, (refl, fresh (k.open_at p segment t.disk).1 t.held)))

    on_error-Entered :
        (p : P) (segment : Str) (held : Open P) (f : Err → Err) (x : Result ℕ × Thread D P)
        → Entered p segment held x
        → Entered p segment held (map_err f x.0, x.1)
    unfolding Entered
    on_error-Entered p segment held f (err e, t) h = h
    on_error-Entered p segment held f (ok fd, t) h = h

    create_segment-Entered :
        (mode current : ℕ) (segment : Str) (p : P) (t : Thread D P)
        → referent current t.held ≡ some p
        → Entered p segment t.held (create_segment k mode current segment t)
    unfolding create_segment Entered
    create_segment-Entered mode current segment p t h =
        made (call_with current make t).0 (call_with current make t).1 (
          call_with-Keeps (λ (u : Thread D P). u.held) current make
            (λ q. call-held (λ _. k.mkdir_at q segment (created_sub_path_unix_mode mode))) t)
      where
        make : P → Exec (Thread D P) (Unit {0})
        make q = call (λ _. k.mkdir_at q segment (created_sub_path_unix_mode mode))

        reopen : Exec (Thread D P) ℕ
        reopen = on_error (source_sub_path_open_error false) (open_segment k current segment)

        made :
            (r : Result (Unit {0})) (u : Thread D P)
            → u.held ≡ t.held
            → Entered p segment t.held (continue (tolerate r) (λ _. reopen) u)
        made r u same = go (tolerate r)
          where
            go : (s : Result (Unit {0})) → Entered p segment t.held (continue s (λ _. reopen) u)
            go (err e) = same
            go (ok done) =
                subst (λ held. Entered p segment held (reopen u)) same
                  (on_error-Entered p segment u.held (source_sub_path_open_error false)
                    (open_segment k current segment u)
                    (open_segment-Entered current segment p u (ap (referent current) same ∙ h)))

    after_open-Entered :
        (create : Bool) (mode current : ℕ) (segment : Str) (p : P) (held : Open P)
        (x : Result ℕ × Thread D P)
        → referent current held ≡ some p
        → Entered p segment held x
        → Entered p segment held (after_open k create mode current segment x.0 x.1)
    unfolding Entered
    after_open-Entered create mode current segment p held (ok fd, t) h e = e
    after_open-Entered create mode current segment p held (err x, t) h e =
        go (is no_entry x && create)
      where
        go :
            (b : Bool)
            → Entered p segment held (
                (if b
                    then create_segment k mode current segment
                    else raise (source_sub_path_open_error (not create) x))
                  t)
        go false = e
        go true =
            subst (λ o. Entered p segment o (create_segment k mode current segment t)) e
              (create_segment-Entered mode current segment p t (ap (referent current) e ∙ h))

    pub enter_segment-Entered :
        (create : Bool) (mode current : ℕ) (segment : Str) (p : P) (t : Thread D P)
        → referent current t.held ≡ some p
        → Entered p segment t.held (enter_segment k create mode current segment t)
    unfolding enter_segment
    enter_segment-Entered create mode current segment p t h =
        after_open-Entered create mode current segment p t.held (open_segment k current segment t) h
          (open_segment-Entered current segment p t h)
