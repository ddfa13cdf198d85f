-- ===== src/Node/Process.antt =====
-- internal/node/mounter_linux.go: the search of a container's process by its control groups.
pub mod Found
use kruise_agents_nfs_csi.Prelude.{
  ℕ, zero, suc, Bool, true, false, not, ◌&&◌, ◌||◌, List, [], ◌∷◌, ◌++◌, Option, none, some, arith,
  ◌==◌, any, ltb, leb, length, nat_eq, if◌then◌else◌,
}
use kruise_agents_nfs_csi.Go.Text.{Str, codes, str_eq}
use kruise_agents_nfs_csi.Go.Search.{contains, replace_all, cut_after, path_join}
use kruise_agents_nfs_csi.Go.Decimal.{atoi}
use kruise_agents_nfs_csi.Go.Errors.{Result, ok, err, text, wrap, map_err, ◌>>=◌}

-- os.DirEntry
pub record DirEntry : Type 0 where
  pub name : Str
  pub is_dir : Bool

abbrev or_whole : Option Str → Str → Str
or_whole none whole = whole
or_whole (some rest) whole = rest

-- normalizeContainerID
unfoldable pub normalize_container_id : Str → Str
normalize_container_id container_id = or_whole (cut_after container_id (codes "://")) container_id

-- containsAny
unfoldable pub contains_any : Str → List Str → Bool
contains_any value needles = any (λ needle. not (needle == []) && contains value needle) needles

abbrev is_digit : ℕ → Bool
is_digit c = leb 48 c && leb c 57

-- isNumeric: the bytes of a rune that is not ASCII are no digits either
unfoldable pub is_numeric : Str → Bool
is_numeric value = not (any (λ c. not (is_digit c)) value) && not (value == [])

-- The first bytes of a text, value[:n].
unfoldable pub first_bytes : ℕ → Str → Str
first_bytes zero s = []
first_bytes (suc n) [] = []
first_bytes (suc n) (c ∷ s) = c ∷ first_bytes n s

-- planSafeContainerID
unfoldable pub plan_safe_container_id : Str → Str
plan_safe_container_id container_id =
    if leb (length (normalize_container_id container_id)) 12
    then normalize_container_id container_id
    else first_bytes 12 (normalize_container_id container_id) ++ codes "..."

-- podNeedles and containerNeedles
unfoldable pub pod_needles : Str → List Str
pod_needles pod_uid = pod_uid ∷ replace_all 45 95 pod_uid ∷ []

unfoldable pub container_needles : Str → List Str
container_needles id = if ltb 12 (length id) then id ∷ first_bytes 12 id ∷ [] else id ∷ []

-- Where an entry's control groups are read.
abbrev pub cgroup_path : Str → Str → Str
cgroup_path proc_root name = path_join (proc_root ∷ name ∷ codes "cgroup" ∷ [])

-- The loop's tests of one entry: what does not pass them is skipped.
unfoldable pub names_container : List Str → List Str → Result Str → Bool
names_container pods containers (err e) = false
names_container pods containers (ok cgroup) =
    contains_any cgroup pods && contains_any cgroup containers

unfoldable pub candidate : (Str → Result Str) → Str → List Str → List Str → DirEntry → Bool
candidate read_file proc_root pods containers entry =
    entry.is_dir
    && is_numeric entry.name
    && names_container pods containers (read_file (cgroup_path proc_root entry.name))

-- The loop.
unfoldable pub find_pid : (Str → Result Str) → Str → List Str → List Str → List DirEntry → Result ℕ
find_pid read_file proc_root pods containers [] = err (text "cannot find process")
find_pid read_file proc_root pods containers (entry ∷ entries) =
    let rest = find_pid read_file proc_root pods containers entries in
    if candidate read_file proc_root pods containers entry
    then (elim (atoi entry.name) [ ok pid ↦ ok pid | err e ↦ rest ])
    else rest

-- findContainerPID
unfoldable pub find_container_pid :
    (Str → Result (List DirEntry)) → (Str → Result Str) → Str → Str → Str → Result ℕ
find_container_pid read_dir read_file proc_root pod_uid container_id =
    if normalize_container_id container_id == []
    then err (text "container id is empty")
    else map_err (wrap "read proc root") (read_dir proc_root)
      >>= find_pid read_file proc_root (pod_needles pod_uid)
          (container_needles (normalize_container_id container_id))
