-- ===== src/Node/Process/Found.antt =====
-- What findContainerPID finds.
use kruise_agents_nfs_csi.Prelude.{
  ℕ, ◌≡◌, ◌≢◌, ◌⊎◌, inl, inr, refl, ap, true, false, not, ◌&&◌, List, [], ◌∷◌, ◌++◌, arith, ◌==◌,
  any, All, Bool-cases,
}
use kruise_agents_nfs_csi.Go.Text.{Str, str_eq}
use kruise_agents_nfs_csi.Go.Search.{contains, contains-split}
use kruise_agents_nfs_csi.Go.Decimal.{atoi}
use kruise_agents_nfs_csi.Go.Errors.{Err, Result, ok, err}
use kruise_agents_nfs_csi.Node.Process.{
  DirEntry, contains_any, is_numeric, names_container, candidate, cgroup_path, find_pid,
  find_container_pid, normalize_container_id, pod_needles, container_needles,
}

-- A text with one of the needles in it, which is not empty.
pub record Mentions (needles : List Str) (value : Str) : Type 0 where
  pub before : Str
  pub needle : Str
  pub after : Str
  pub occurs : value ≡ before ++ (needle ++ after)
  pub is_text : needle ≢ []
  pub is_one : any (λ n. n == needle) needles ≡ true

contains_any-Mentions :
    (value : Str) (needles : List Str) → contains_any value needles ≡ true → Mentions needles value
unfolding contains_any any
contains_any-Mentions value [] h = ground arith
contains_any-Mentions value (needle ∷ needles) h =
    elim (Bool-cases (not (needle == []) && contains value needle)) [
      | inl found ↦
          let (before, after, e) = contains-split value needle (ground arith) in
          record {
            before = before;
            needle = needle;
            after = after;
            occurs = e;
            is_text = ground arith;
            is_one = ground arith;
          }
      | inr missing ↦
          let m = contains_any-Mentions value needles (ground arith) in
          record {
            before = m.before;
            needle = m.needle;
            after = m.after;
            occurs = m.occurs;
            is_text = m.is_text;
            is_one = ground (arith, m.is_one);
          }
    ]

module _ (read_file : Str → Result Str) (proc_root : Str) (pods containers : List Str) where
  -- The entry is the numbered directory of a process whose control groups name the pod and the
  -- container.
  pub record IsProcess (pid : ℕ) (entry : DirEntry) : Type 0 where
    pub directory : entry.is_dir ≡ true
    pub numeric : is_numeric entry.name ≡ true
    pub numbered : atoi entry.name ≡ ok pid
    pub cgroup : Str
    pub groups : read_file (cgroup_path proc_root entry.name) ≡ ok cgroup
    pub of_pod : Mentions pods cgroup
    pub of_container : Mentions containers cgroup

  -- The loop goes on behind the entry.
  pub Skipped : DirEntry → Type 0
  Skipped entry =
      (candidate read_file proc_root pods containers entry ≡ false)
      ⊎ ((e : Err) × (atoi entry.name ≡ err e))

  candidate-IsProcess :
      (entry : DirEntry) (pid : ℕ)
      → candidate read_file proc_root pods containers entry ≡ true
      → atoi entry.name ≡ ok pid
      → IsProcess pid entry
  unfolding candidate names_container
  candidate-IsProcess entry pid h k = go (read_file (cgroup_path proc_root entry.name)) refl
    where
      go : (r : Result Str) → read_file (cgroup_path proc_root entry.name) ≡ r → IsProcess pid entry
      go (err e) re = ground arith
      go (ok cgroup) re = record {
        directory = ground arith;
        numeric = ground arith;
        numbered = k;
        cgroup = cgroup;
        groups = re;
        of_pod = contains_any-Mentions cgroup pods (ground arith);
        of_container = contains_any-Mentions cgroup containers (ground arith);
      }

  -- The first process that answers to the needles.
  pub record Found (pid : ℕ) (entries : List DirEntry) : Type 0 where
    pub before : List DirEntry
    pub entry : DirEntry
    pub after : List DirEntry
    pub place : entries ≡ before ++ (entry ∷ after)
    pub process : IsProcess pid entry
    pub first : All Skipped before

  further :
      (pid : ℕ) (entry : DirEntry) (entries : List DirEntry)
      → Skipped entry
      → Found pid entries
      → Found pid (entry ∷ entries)
  further pid entry entries s f = record {
    before = entry ∷ f.before;
    entry = f.entry;
    after = f.after;
    place = ap (λ rest. entry ∷ rest) f.place;
    process = f.process;
    first = (s, f.first);
  }

  here :
      (pid : ℕ) (entry : DirEntry) (entries : List DirEntry)
      → IsProcess pid entry
      → Found pid (entry ∷ entries)
  here pid entry entries p = record {
    before = [];
    entry = entry;
    after = entries;
    place = refl;
    process = p;
    first = tt;
  }

  find_pid-Found :
      (entries : List DirEntry) (pid : ℕ)
      → find_pid read_file proc_root pods containers entries ≡ ok pid
      → Found pid entries
  unfolding find_pid Skipped
  find_pid-Found [] pid h = ground arith
  find_pid-Found (entry ∷ entries) pid h =
      elim (Bool-cases (candidate read_file proc_root pods containers entry)) [
        | inr other ↦
            further pid entry entries (inl other) (find_pid-Found entries pid (ground arith))
        | inl passed ↦ numbered (atoi entry.name) refl passed (find_pid-Found entries pid)
      ]
    where
      numbered :
          (r : Result ℕ)
          → atoi entry.name ≡ r
          → candidate read_file proc_root pods containers entry ≡ true
          → (find_pid read_file proc_root pods containers entries ≡ ok pid → Found pid entries)
          → Found pid (entry ∷ entries)
      numbered (ok n) re passed rest =
          here pid entry entries (candidate-IsProcess entry pid passed (ground arith))
      numbered (err e) re passed rest =
          further pid entry entries (inr (e, re)) (rest (ground arith))

-- If the search of a container's process returns a number and the process directory reads as the
-- given entries, then the first of them that passes the loop's tests and has a name that is a number
-- of an int has that number: it is a directory with a name of digits, and its control groups mention
-- the pod's uid, perhaps with underscores for dashes, and the container's id, perhaps cut to 12 bytes.
pub find_container_pid-Found :
    (read_dir : Str → Result (List DirEntry)) (read_file : Str → Result Str)
    (proc_root pod_uid container_id : Str) (entries : List DirEntry) (pid : ℕ)
    → read_dir proc_root ≡ ok entries
    → find_container_pid read_dir read_file proc_root pod_uid container_id ≡ ok pid
    → Found read_file proc_root
        (pod_needles pod_uid)
        (container_needles (normalize_container_id container_id))
        pid
        entries
unfolding find_container_pid
find_container_pid-Found read_dir read_file proc_root pod_uid container_id entries pid h k =
    find_pid-Found read_file proc_root (pod_needles pod_uid)
      (container_needles (normalize_container_id container_id)) entries pid (ground arith)
