-- ===== src/Node/Tree/Walked.antt =====
-- Which descriptors openDirectoryNoFollow leaves open, and what its result refers to.
use kruise_agents_nfs_csi.Prelude.{
  ℕ, ◌≡◌, ◌≢◌, ◌⊎◌, inl, inr, refl, sym, ap, ◌∙◌, subst, Bool, List, [], ◌∷◌, some, arith, nat_eq,
  ℕ_discrete, is_yes, if◌then◌else◌,
}
use kruise_agents_nfs_csi.Go.Text.{Str}
use kruise_agents_nfs_csi.Go.Errors.{Result, ok, err, map_err, wrap}
use kruise_agents_nfs_csi.Go.Exec.{Exec, on_error, continue, ◌>>=◌}
use kruise_agents_nfs_csi.Node.Segments.{source_sub_path_segments}
use kruise_agents_nfs_csi.Node.System.{
  Kernel, Thread, Attributes, Open, IsUnused, referent, drop_fd, call, open_fd, close_fd, hold,
  path_no_follow,
}
use kruise_agents_nfs_csi.Node.System.Held.{drop_fd-head, referent-head}
use kruise_agents_nfs_csi.Node.Tree.{
  enter_segment, walk, go_on, leave, close_directory_walk_fds, open_directory_no_follow,
}
use kruise_agents_nfs_csi.Node.Tree.Entered.{
  Walks, arrived, below, Outcome, Entered, enter_segment-Entered,
}

-- Where the loop stands: it holds the staged directory and, unless that is the current one, the
-- current one too.
Stands : {P : Type 0} → ℕ → ℕ → P → Open P → Open P → Type 0
Stands {P = P} dir current q base held =
    ((current ≡ dir) × (held ≡ (dir, q) ∷ base))
    ⊎ ((current ≢ dir) × ((p : P) × (held ≡ (current, q) ∷ (dir, p) ∷ base)))

Stands-referent :
    {P : Type 0} (dir current : ℕ) (q : P) (base held : Open P)
    → Stands dir current q base held
    → referent current held ≡ some q
unfolding Stands
Stands-referent dir current q base held (inl (same, e)) =
    ap (referent current) (e ∙ ap (λ n. (n, q) ∷ base) (sym same)) ∙ referent-head current q base
Stands-referent dir current q base held (inr (other, (p, e))) =
    ap (referent current) e ∙ referent-head current q ((dir, p) ∷ base)

pub drop_fd-next :
    {P : Type 0} (n fd : ℕ) (p : P) (held : Open P)
    → n ≢ fd
    → drop_fd fd ((n, p) ∷ held) ≡ (n, p) ∷ drop_fd fd held
unfolding drop_fd
drop_fd-next n fd p held h = ground arith

module _ {D P : Type 0} where
  leave_same : (dir current : ℕ) (t : Thread D P) → current ≡ dir → leave dir current t ≡ t
  leave_same dir current t h = ground arith

  leave_other :
      (dir current : ℕ) (t : Thread D P) → current ≢ dir → leave dir current t ≡ close_fd current t
  leave_other dir current t h = ground arith

  -- Both are closed.
  Stands-close :
      (dir current : ℕ) (q : P) (base : Open P) (t : Thread D P)
      → Stands dir current q base t.held
      → (close_directory_walk_fds dir current t).held ≡ base
  unfolding Stands close_directory_walk_fds close_fd
  Stands-close dir current q base t (inl (same, e)) =
      ap (λ (u : Thread D P). drop_fd dir u.held) (leave_same dir current t same)
      ∙ ap (drop_fd dir) e
      ∙ drop_fd-head dir q base
  Stands-close dir current q base t (inr (other, (p, e))) =
      ap (λ (u : Thread D P). drop_fd dir u.held) (leave_other dir current t other)
      ∙ ap (λ held. drop_fd dir (drop_fd current held)) e
      ∙ ap (drop_fd dir) (drop_fd-head current q ((dir, p) ∷ base))
      ∙ drop_fd-head dir p base

  -- The directory that was left is closed, unless it is the staged one.
  Stands-leave :
      (dir current next : ℕ) (q r : P) (base held : Open P) (t : Thread D P)
      → Stands dir current q base held
      → t.held ≡ (next, r) ∷ held
      → IsUnused next held
      → Stands dir next r base (leave dir current t).held
  unfolding Stands close_fd
  Stands-leave dir current next q r base held t (inl (same, e)) h unused = inr (
    ground (arith, subst (IsUnused next) e unused),
    (
      q,
      ap (λ (u : Thread D P). u.held) (leave_same dir current t same)
          ∙ h
          ∙ ap (λ rest. (next, r) ∷ rest) e,
    ),
  )
  Stands-leave dir current next q r base held t (inr (other, (p, e))) h unused =
      let both = subst (IsUnused next) e unused in
      inr (
        ground (arith, both),
        (
          p,
          ap (λ (u : Thread D P). u.held) (leave_other dir current t other)
              ∙ ap (drop_fd current) (h ∙ ap (λ rest. (next, r) ∷ rest) e)
              ∙ drop_fd-next next current r ((current, q) ∷ (dir, p) ∷ base) (ground (arith, both))
              ∙ ap (λ rest. (next, r) ∷ rest) (drop_fd-head current q ((dir, p) ∷ base)),
        ),
      )

module _ {D P : Type 0} (k : Kernel D P)
    (fresh : (d : D) (held : Open P) → IsUnused (k.next_fd d held) held) where
  walk-Outcome :
      (create : Bool) (mode dir current : ℕ) (segments : List Str) (q : P) (base : Open P)
      (t : Thread D P)
      → Stands dir current q base t.held
      → Outcome k (Walks k q segments) base (walk k create mode dir current segments t)
  unfolding walk Outcome Stands close_fd Entered
  walk-Outcome create mode dir current [] q base t s =
      elim (ℕ_discrete current dir)
        as (λ b.
          Outcome k (Walks k q []) base
            (if is_yes b then (ok dir, t) else (ok current, close_fd dir t))) [
              | yes same ↦ elim s [
                | inl stays ↦ (q, (arrived, stays.1))
                | inr moved ↦ absurd (moved.0 same)
              ]
              | no other ↦ elim s [
                | inl stays ↦ absurd (other stays.0)
                | inr moved ↦ (
                  q,
                  (
                    arrived,
                    ap (drop_fd dir) moved.1.1
                        ∙ drop_fd-next current dir q ((dir, moved.1.0) ∷ base) other
                        ∙ ap (λ rest. (current, q) ∷ rest) (drop_fd-head dir moved.1.0 base),
                  ),
                )
              ]
            ]
  walk-Outcome create mode dir current (segment ∷ segments) q base t s =
      go (enter_segment k create mode current segment t)
        (enter_segment-Entered k fresh create mode current segment q t
          (Stands-referent dir current q base t.held s))
        (λ next r u. walk-Outcome create mode dir next segments r base u)
    where
      go :
          (x : Result ℕ × Thread D P)
          → Entered k fresh q segment t.held x
          → ((next : ℕ) (r : P) (u : Thread D P)
              → Stands dir next r base u.held
              → Outcome k (Walks k r segments) base (walk k create mode dir next segments u))
          → Outcome k
              (Walks k q (segment ∷ segments))
              base
              (go_on k dir current (λ next. walk k create mode dir next segments) x.0 x.1)
      go (err e, u) same rest =
          Stands-close dir current q base u (subst (Stands dir current q base) (sym same) s)
      go (ok next, u) (r, d, (opened, (held, unused))) rest =
          widen (walk k create mode dir next segments (leave dir current u)) (
            rest next r (leave dir current u)
              (Stands-leave dir current next q r base t.held u s held unused))
        where
          widen :
              (x : Result ℕ × Thread D P)
              → Outcome k (Walks k r segments) base x
              → Outcome k (Walks k q (segment ∷ segments)) base x
          widen (err e, v) o = o
          widen (ok fd, v) (p, (walked, o)) = (p, (below d opened walked, o))

-- The directory that a source sub-path names below the staged mount: the staged directory was opened
-- without following a link, and each name of the path below the directory before it.
pub record Reached {D P : Type 0} (k : Kernel D P) (stage_path source_sub_path : Str)
    (a : Attributes P) (p : P) : Type 0 where
  pub segments : List Str
  pub stage : P
  pub disk : D
  pub checked : source_sub_path_segments source_sub_path ≡ ok segments
  pub opened : (k.open_file path_no_follow stage_path a disk).0 ≡ ok stage
  pub walked : Walks k stage segments p

module _ {D P : Type 0} (k : Kernel D P)
    (fresh : (d : D) (held : Open P) → IsUnused (k.next_fd d held) held) where
  -- If the kernel never numbers a descriptor like one that is open, openDirectoryNoFollow leaves no
  -- descriptor open when it fails. Else it leaves exactly the one that it returns, which refers to the
  -- directory that is reached from the staged one by opening the names of the sub-path in turn.
  pub open_directory_no_follow-Outcome :
      (stage_path source_sub_path : Str) (create : Bool) (mode : ℕ) (t : Thread D P)
      → Outcome k
          (Reached k stage_path source_sub_path t.attributes)
          t.held
          (open_directory_no_follow k stage_path source_sub_path create mode t)
  unfolding open_directory_no_follow Outcome open_fd call Stands
  open_directory_no_follow-Outcome stage_path source_sub_path create mode t =
      from_segments (source_sub_path_segments source_sub_path) refl
    where
      stage_call : Exec (Thread D P) ℕ
      stage_call =
          on_error (wrap "open staged mount") (open_fd k (k.open_file path_no_follow stage_path))

      Goal : Result ℕ × Thread D P → Type 0
      Goal = Outcome k (Reached k stage_path source_sub_path t.attributes) t.held

      from_stage :
          (segments : List Str)
          → source_sub_path_segments source_sub_path ≡ ok segments
          → (r : Result P) (u : Thread D P)
          → (k.open_file path_no_follow stage_path t.attributes t.disk).0 ≡ r
          → u.held ≡ t.held
          → Goal (
              continue
                (map_err (wrap "open staged mount") (hold k r u).0)
                (λ dir. walk k create mode dir dir segments)
                (hold k r u).1)
      from_stage segments checked (err e) u re same = same
      from_stage segments checked (ok p) u re same =
          widen
            (walk k create mode (k.next_fd u.disk u.held) (k.next_fd u.disk u.held) segments
              (hold k (ok p) u).1)
            (walk-Outcome k fresh create mode (k.next_fd u.disk u.held) (k.next_fd u.disk u.held)
              segments p t.held (hold k (ok p) u).1
              (inl (refl, ap (λ held. (k.next_fd u.disk u.held, p) ∷ held) same)))
        where
          widen : (x : Result ℕ × Thread D P) → Outcome k (Walks k p segments) t.held x → Goal x
          widen (err e, v) o = o
          widen (ok fd, v) (q, (walked, o)) = (
            q,
            (
              record {
                segments = segments;
                stage = p;
                disk = t.disk;
                checked = checked;
                opened = re;
                walked = walked;
              },
              o,
            ),
          )

      from_segments :
          (r : Result (List Str))
          → source_sub_path_segments source_sub_path ≡ r
          → Goal
              (continue r (λ segments. stage_call >>= λ dir. walk k create mode dir dir segments) t)
      from_segments (err e) re = refl
      from_segments (ok segments) re =
          from_stage segments re (k.open_file path_no_follow stage_path t.attributes t.disk).0
            (record t { disk = (k.open_file path_no_follow stage_path t.attributes t.disk).1 }) refl
            refl
