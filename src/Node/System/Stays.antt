-- ===== src/Node/System/Stays.antt =====
-- Calls that leave the thread where it is.
use kruise_agents_nfs_csi.Prelude.{ℕ, ◌≡◌, refl, sym, subst}
use kruise_agents_nfs_csi.Go.Errors.{Result, ok, err}
use kruise_agents_nfs_csi.Go.Exec.{Exec, continue, ◌>>=◌}
use kruise_agents_nfs_csi.Node.System.{
  Kernel, Thread, Attributes, call, open_fd, close_fd, defer, hold,
}
use kruise_agents_nfs_csi.Node.System.Held.{Keeps}

abbrev pub attributes : {D P : Type 0} → Thread D P → Attributes P
attributes t = t.attributes

abbrev pub namespace : {D P : Type 0} → Thread D P → P
namespace t = t.attributes.namespace

pub open_fd-attributes :
    {D P : Type 0} (k : Kernel D P) (f : Attributes P → Exec D P) → Keeps attributes (open_fd k f)
unfolding open_fd call
open_fd-attributes {D} {P} k f t =
    go (f t.attributes t.disk).0 (record t { disk = (f t.attributes t.disk).1 }) refl
  where
    go :
        (r : Result P) (u : Thread D P)
        → u.attributes ≡ t.attributes
        → (hold k r u).1.attributes ≡ t.attributes
    go (err e) u same = same
    go (ok p) u same = same

-- In one of these namespaces before the call, and behind it, whatever it returns.
abbrev pub Stays : {D P A : Type 0} → (P → Type 0) → Exec (Thread D P) A → Type 0
Stays {D} {P} p m = (t : Thread D P) → p (namespace t) → p (namespace (m t).1)

module _ {D P : Type 0} (p : P → Type 0) where
  pub Keeps-Stays : {A : Type 0} (m : Exec (Thread D P) A) → Keeps attributes m → Stays p m
  Keeps-Stays m h t e = subst (λ (a : Attributes P). p a.namespace) (sym (h t)) e

  pub bind-Stays :
      {A B : Type 0} (m : Exec (Thread D P) A) (f : A → Exec (Thread D P) B)
      → Stays p m
      → ((a : A) → Stays p (f a))
      → Stays p (m >>= f)
  bind-Stays {A} {B} m f h k t e = go (m t).0
    where
      go : (r : Result A) → p (namespace (continue r f (m t).1).1)
      go (ok a) = k a (m t).1 (h t e)
      go (err x) = h t e

  pub close-Stays :
      {A : Type 0} (fd : ℕ) (m : Exec (Thread D P) A) → Stays p m → Stays p (defer (close_fd fd) m)
  unfolding defer close_fd
  close-Stays fd m h t e = h t e

  -- Behind a deferred call as well, if that stays in the namespace.
  pub defer-Stays :
      {A : Type 0} (f : Thread D P → Thread D P) (m : Exec (Thread D P) A)
      → Stays p m
      → ((t : Thread D P) → p (namespace t) → p (namespace (f t)))
      → Stays p (defer f m)
  unfolding defer
  defer-Stays f m h k t e = k (m t).1 (h t e)
