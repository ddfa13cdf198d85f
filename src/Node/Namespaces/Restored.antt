-- ===== src/Node/Namespaces/Restored.antt =====
-- The thread behind a call in a container's mount namespace: the namespace it is in.
use kruise_agents_nfs_csi.Prelude.{
  ℕ, ◌≡◌, ◌≢◌, refl, sym, ap, ◌∙◌, subst, ◌∷◌, Option, none, some, arith, nat_eq,
}
use kruise_agents_nfs_csi.Go.Text.{Str, codes}
use kruise_agents_nfs_csi.Go.Decimal.{itoa}
use kruise_agents_nfs_csi.Go.Errors.{Err, Result, ok, err, wrap, map_err}
use kruise_agents_nfs_csi.Go.Exec.{Exec, on_error, continue, ◌>>=◌}
use kruise_agents_nfs_csi.Node.System.{
  Kernel, Thread, Attributes, Open, IsUnused, referent, with_referent, set_attributes, hold, call,
  call_with, change, open_fd, close_fd, defer, file,
}
use kruise_agents_nfs_csi.Node.System.Held.{Keeps, held}
use kruise_agents_nfs_csi.Node.Namespaces.{
  namespace_path, enter_namespace, restore_namespace, entered, open_target, in_mount_namespace,
}

-- What the kernel documents: a new descriptor has a number that is not in use, and setns enters the
-- namespace it is given.
pub record Documented {D P : Type 0} (k : Kernel D P) : Type 0 where
  pub fresh : (d : D) (held : Open P) → IsUnused (k.next_fd d held) held
  pub enters : (p : P) (a b : Attributes P) (d : D) → (k.setns p a d).0 ≡ ok b → b.namespace ≡ p

-- Where a thread that was at home is allowed to end: at home; in a namespace that opening
-- /proc/self/ns/mnt has returned to it at such a place; or, where setns back to such a namespace
-- has failed, in the one that it made this attempt in.
pub data Returned {D P : Type 0} (k : Kernel D P) (proc_root : Str) (home : P) : P → Type 0 where
  unmoved : Returned k proc_root home home
  restored :
      (a : Attributes P) (d : D) (p : P)
      → Returned k proc_root home a.namespace
      → (k.open_file file (namespace_path proc_root (codes "self")) a d).0 ≡ ok p
      → Returned k proc_root home p
  stranded :
      (a b : Attributes P) (d e : D) (p : P) (failure : Err)
      → Returned k proc_root home a.namespace
      → (k.open_file file (namespace_path proc_root (codes "self")) a d).0 ≡ ok p
      → (k.setns p b e).0 ≡ err failure
      → Returned k proc_root home b.namespace

-- Where /proc/self/ns/mnt is the namespace of the calling thread itself, and setns never fails, home
-- is the only such place.
Returned-eq :
    {D P : Type 0} (k : Kernel D P) (proc_root : Str) (home n : P)
    → ((a : Attributes P) (d : D) (p : P)
        → (k.open_file file (namespace_path proc_root (codes "self")) a d).0 ≡ ok p
        → p ≡ a.namespace)
    → ((p : P) (a : Attributes P) (d : D) (e : Err) → (k.setns p a d).0 ≢ err e)
    → Returned k proc_root home n
    → n ≡ home
Returned-eq k proc_root home _ own never unmoved = refl
Returned-eq k proc_root home _ own never (restored a d p at opened) =
    own a d p opened ∙ Returned-eq k proc_root home a.namespace own never at
Returned-eq k proc_root home _ own never (stranded a b d e p failure at opened failed) =
    absurd (never p b e failure failed)

abbrev pub namespace : {D P : Type 0} → Thread D P → P
namespace t = t.attributes.namespace

referent-next :
    {P : Type 0} (n fd : ℕ) (p q : P) (rest : Open P)
    → n ≢ fd
    → referent fd ((n, p) ∷ (fd, q) ∷ rest) ≡ some q
unfolding referent
referent-next n fd p q rest h = ground arith

module _ {D P : Type 0} (k : Kernel D P) (proc_root : Str) (laws : Documented k) (home : P) where
  abbrev At : P → Type 0
  At = Returned k proc_root home

  -- What /proc/self/ns/mnt was for a thread at such a place.
  abbrev SelfOpened : P → Type 0
  SelfOpened p =
      (a : Attributes P) × (d : D) × At a.namespace
      × ((k.open_file file (namespace_path proc_root (codes "self")) a d).0 ≡ ok p)

  namespace_kept :
      (t u : Thread D P) → u.attributes ≡ t.attributes → At (namespace t) → At (namespace u)
  namespace_kept t u same at = subst (λ (a : Attributes P). At a.namespace) (sym same) at

  change-namespace :
      (p : P) (t : Thread D P) → SelfOpened p → At (change (k.setns p) t).1.attributes.namespace
  unfolding change call
  change-namespace p t (a, d, at, opened) = go (k.setns p t.attributes t.disk).0 refl
    where
      go :
          (r : Result (Attributes P))
          → (k.setns p t.attributes t.disk).0 ≡ r
          → At
              (set_attributes r
                (record t { disk = (k.setns p t.attributes t.disk).1 })).1.attributes.namespace
      go (err e) re = stranded a t.attributes d t.disk p e at opened re
      go (ok b) re =
          subst At (sym (laws.enters p t.attributes b t.disk re)) (restored a d p at opened)

  -- The deferred setns.
  restore_namespace-namespace :
      (self_ns : ℕ) (p : P) (t : Thread D P)
      → referent self_ns t.held ≡ some p
      → SelfOpened p
      → At (namespace (restore_namespace k self_ns t))
  unfolding restore_namespace enter_namespace call_with
  restore_namespace-namespace self_ns p t h own =
      subst (λ o. At (namespace (with_referent o (λ q. change (k.setns q)) t).1)) (sym h)
        (change-namespace p t own)

  -- The same holds where the thread has not entered the other namespace.
  entered-namespace :
      (self_ns target_ns : ℕ) (p : P) (body : Exec (Thread D P) (Unit {0})) (t : Thread D P)
      → Keeps held body
      → referent self_ns t.held ≡ some p
      → SelfOpened p
      → At (namespace t)
      → At (namespace (entered k self_ns target_ns body t).1)
  unfolding entered enter_namespace call_with defer change call
  entered-namespace self_ns target_ns p body t keeps h own at =
      by_referent (referent target_ns t.held)
    where
      Goal : Result (Unit {0}) × Thread D P → Type 0
      Goal x = At (
          namespace
            (continue (map_err (wrap "enter target mount namespace") x.0)
              (λ _. defer (restore_namespace k self_ns) body) x.1).1)

      by_call :
          (q : P) (r : Result (Attributes P)) (u : Thread D P)
          → u.attributes ≡ t.attributes
          → u.held ≡ t.held
          → Goal (set_attributes r u)
      by_call q (err e) u same_attributes same_held = namespace_kept t u same_attributes at
      by_call q (ok a) u same_attributes same_held =
          let inside = body (record u { attributes = a }) in
          restore_namespace-namespace self_ns p inside.1
            (ap (referent self_ns) (keeps (record u { attributes = a }) ∙ same_held) ∙ h) own

      by_referent : (o : Option P) → Goal (with_referent o (λ q. change (k.setns q)) t)
      by_referent none = at
      by_referent (some q) =
          by_call q (k.setns q t.attributes t.disk).0
            (record t { disk = (k.setns q t.attributes t.disk).1 }) refl refl

  -- From the second descriptor on.
  target-namespace :
      (pid self_ns : ℕ) (p : P) (rest : Open P) (body : Exec (Thread D P) (Unit {0}))
      (t : Thread D P)
      → Keeps held body
      → t.held ≡ (self_ns, p) ∷ rest
      → SelfOpened p
      → At (namespace t)
      → At (namespace (open_target k proc_root pid self_ns body t).1)
  unfolding open_target open_fd call defer close_fd
  target-namespace pid self_ns p rest body t keeps holds own at =
      go (opened t.attributes t.disk).0 (record t { disk = (opened t.attributes t.disk).1 }) refl
        refl
    where
      opened : Attributes P → Exec D P
      opened = k.open_file file (namespace_path proc_root (itoa pid))

      go :
          (r : Result P) (u : Thread D P)
          → u.attributes ≡ t.attributes
          → u.held ≡ t.held
          → At (
              namespace
                (continue
                  (map_err (wrap "open target mount namespace") (hold k r u).0)
                  (λ target_ns. defer (close_fd target_ns) (entered k self_ns target_ns body))
                  (hold k r u).1).1)
      go (err e) u same_attributes same_held = namespace_kept t u same_attributes at
      go (ok q) u same_attributes same_held =
          let fd = k.next_fd u.disk u.held in
          let unused = subst (IsUnused fd) (same_held ∙ holds) (laws.fresh u.disk u.held) in
          entered-namespace self_ns fd p body (hold k (ok q) u).1 keeps
            (ap (λ rest. referent self_ns ((fd, q) ∷ rest)) (same_held ∙ holds)
              ∙ referent-next fd self_ns q p rest (λ e. unused.0 (sym e)))
            own (namespace_kept t u same_attributes at)

  -- The thread is at such a place again, whatever was called and whatever has failed.
  pub in_mount_namespace-namespace :
      (pid : ℕ) (body : Exec (Thread D P) (Unit {0})) (t : Thread D P)
      → Keeps held body
      → At (namespace t)
      → At (namespace (in_mount_namespace k proc_root pid body t).1)
  unfolding in_mount_namespace open_fd call defer close_fd
  in_mount_namespace-namespace pid body t keeps at =
      unshared (k.unshare_fs t.disk).0 (record t { disk = (k.unshare_fs t.disk).1 }) refl
    where
      opened : Attributes P → Exec D P
      opened = k.open_file file (namespace_path proc_root (codes "self"))

      go :
          (r : Result P) (u : Thread D P) (d : D)
          → (opened u.attributes d).0 ≡ r
          → u.attributes ≡ t.attributes
          → At (
              namespace
                (continue
                  (map_err (wrap "open current mount namespace") (hold k r u).0)
                  (λ self_ns. defer (close_fd self_ns) (open_target k proc_root pid self_ns body))
                  (hold k r u).1).1)
      go (err e) u d re same = namespace_kept t u same at
      go (ok p) u d re same =
          let here = namespace_kept t u same at in
          target-namespace pid (k.next_fd u.disk u.held) p u.held body (hold k (ok p) u).1 keeps
            refl (u.attributes, d, here, re) here

      unshared :
          (r : Result (Unit {0})) (u : Thread D P)
          → u.attributes ≡ t.attributes
          → At (
              namespace
                (continue
                  (map_err (wrap "unshare filesystem attributes") r)
                  (λ _.
                    on_error (wrap "open current mount namespace") (open_fd k opened) >>= λ self_ns.
                    defer (close_fd self_ns) (open_target k proc_root pid self_ns body))
                  u).1)
      unshared (err e) u same = namespace_kept t u same at
      unshared (ok done) u same =
          go (opened u.attributes u.disk).0 (record u { disk = (opened u.attributes u.disk).1 })
            u.disk refl same
