-- ===== src/Node/System/Held.antt =====
-- What parts of a thread a sequence of system calls leaves as they were.
use kruise_agents_nfs_csi.Prelude.{ℕ, ◌≡◌, refl, ap, ◌∙◌, ◌∷◌, Option, none, some, arith, nat_eq}
use kruise_agents_nfs_csi.Go.Errors.{Err, Result, ok, err, map_err}
use kruise_agents_nfs_csi.Go.Exec.{Exec, ◌>>=◌, continue, on_error, lift}
use kruise_agents_nfs_csi.Node.System.{
  Kernel, Thread, Attributes, Open, referent, drop_fd, call, call_with, change, close_fd, defer,
  open_fd, hold, set_attributes, with_referent,
}

abbrev pub held : {D P : Type 0} → Thread D P → Open P
held t = t.held

-- Whatever the call returns, this part of the thread is as before.
abbrev pub Keeps : {D P A X : Type 0} → (Thread D P → X) → Exec (Thread D P) A → Type 0
Keeps {D} {P} part m = (t : Thread D P) → part (m t).1 ≡ part t

module _ {D P X : Type 0} (part : Thread D P → X) where
  pub bind-Keeps :
      {A B : Type 0} (m : Exec (Thread D P) A) (f : A → Exec (Thread D P) B)
      → Keeps part m
      → ((a : A) → Keeps part (f a))
      → Keeps part (m >>= f)
  bind-Keeps {A} {B} m f h k t = go (m t).0 ∙ h t
    where
      go : (r : Result A) → part (continue r f (m t).1).1 ≡ part (m t).1
      go (ok a) = k a (m t).1
      go (err e) = refl

pub call-held :
    {D P A : Type 0} (f : Attributes P → Exec D A) → Keeps (λ (t : Thread D P). t.held) (call f)
unfolding call
call-held f t = refl

pub call-attributes :
    {D P A : Type 0} (f : Attributes P → Exec D A)
    → Keeps (λ (t : Thread D P). t.attributes) (call f)
unfolding call
call-attributes f t = refl

pub call_with-Keeps :
    {D P A X : Type 0} (part : Thread D P → X) (fd : ℕ) (f : P → Exec (Thread D P) A)
    → ((p : P) → Keeps part (f p))
    → Keeps part (call_with fd f)
unfolding call_with
call_with-Keeps {D} {P} {A} part fd f h t = go (referent fd t.held)
  where
    go : (r : Option P) → part (with_referent r f t).1 ≡ part t
    go none = refl
    go (some p) = h p t

pub change-held :
    {D P : Type 0} (f : Attributes P → Exec D (Attributes P))
    → Keeps (λ (t : Thread D P). t.held) (change f)
unfolding change call
change-held {D} {P} f t = go (f t.attributes t.disk).0
  where
    go :
        (r : Result (Attributes P))
        → (set_attributes r (record t { disk = (f t.attributes t.disk).1 })).1.held ≡ t.held
    go (err e) = refl
    go (ok a) = refl

pub drop_fd-head :
    {P : Type 0} (fd : ℕ) (p : P) (held : Open P) → drop_fd fd ((fd, p) ∷ held) ≡ held
unfolding drop_fd
drop_fd-head fd p held = ground arith

pub referent-head :
    {P : Type 0} (fd : ℕ) (p : P) (held : Open P) → referent fd ((fd, p) ∷ held) ≡ some p
unfolding referent
referent-head fd p held = ground arith

module _ {D P : Type 0} (k : Kernel D P) where
  -- A descriptor whose closing is deferred is not held behind the call.
  pub opened-held :
      {A : Type 0} (note : Err → Err) (f : Attributes P → Exec D P) (body : ℕ → Exec (Thread D P) A)
      → ((fd : ℕ) → Keeps (λ (t : Thread D P). t.held) (body fd))
      → Keeps
          (λ (t : Thread D P). t.held)
          (on_error note (open_fd k f) >>= λ fd. defer (close_fd fd) (body fd))
  unfolding open_fd call defer close_fd
  opened-held {A} note f body h t =
      go (f t.attributes t.disk).0 (record t { disk = (f t.attributes t.disk).1 }) refl
    where
      go :
          (r : Result P) (u : Thread D P)
          → u.held ≡ t.held
          → (continue
              (map_err note (hold k r u).0)
              (λ fd. defer (close_fd fd) (body fd))
              (hold k r u).1).1.held
            ≡ t.held
      go (err e) u same = same
      go (ok p) u same =
          ap (drop_fd (k.next_fd u.disk u.held)) (h (k.next_fd u.disk u.held) (hold k (ok p) u).1)
          ∙ drop_fd-head (k.next_fd u.disk u.held) p u.held
          ∙ same

-- The same for the pieces that the operations are made of.
module _ {D P X : Type 0} (part : Thread D P → X) where
  pub on_error-Keeps :
      {A : Type 0} (note : Err → Err) (m : Exec (Thread D P) A)
      → Keeps part m
      → Keeps part (on_error note m)
  on_error-Keeps note m h = h

  pub lift-Keeps : {A : Type 0} (r : Result A) → Keeps part (lift {W = Thread D P} r)
  lift-Keeps r t = refl
