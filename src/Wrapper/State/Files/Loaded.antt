-- ===== src/Wrapper/State/Files/Loaded.antt =====
-- internal/wrapper/state.go: what loading the state directory puts into memory.
use kruise_agents_nfs_csi.Prelude.{
  ◌≡◌, ◌≢◌, ◌⊎◌, inl, inr, refl, sym, subst, Bool, true, false, not, ◌||◌, List, [], ◌∷◌, none,
  some, arith, if◌then◌else◌, nat_eq, Any, All,
}
use kruise_agents_nfs_csi.Go.Text.{Str, str_eq, codes}
use kruise_agents_nfs_csi.Go.Errors.{Err, Result, ok, err, map_err, wrap}
use kruise_agents_nfs_csi.Go.Errors
use kruise_agents_nfs_csi.Go.Maps.{lookup}
use kruise_agents_nfs_csi.Wrapper.Desired.{DesiredMount, MountKey, key, key_eq}
use kruise_agents_nfs_csi.Wrapper.State.{
  MountStateFile, Memory, mount_state_version, legacy_mount_state_version, mount_state_filename,
  put_in_memory,
}
use kruise_agents_nfs_csi.Wrapper.State.Index.{
  IsIndexed, put_in_memory-IsIndexed, lookup-put_in_memory,
}
use kruise_agents_nfs_csi.Wrapper.State.Files.{
  Files, Entry, accept_state, has_suffix, load_entry, load_into, load,
}

-- The intent of a state file: a file of the present version holds it as it is; of one of the legacy
-- version, the export-root decision is forgotten and marked as unknown.
abbrev pub IsIntentOf : DesiredMount → MountStateFile → Type 0
IsIntentOf mount state =
    ((state.version ≡ mount_state_version) × (mount ≡ state.mount))
    ⊎ ((state.version ≡ legacy_mount_state_version)
        × (mount ≡ record state.mount {
          export_root_authorized = false;
          export_root_key_fingerprint = [];
          legacy_root_classification_unknown = true;
        }))

module _ {D : Type 0} (f : Files D) (decode : Str → Result MountStateFile) where
  -- The entry is a state file.
  abbrev pub IsStateFile : Entry → Type 0
  IsStateFile entry = (entry.is_dir ≡ false) × (has_suffix entry.name (codes ".json") ≡ true)

  -- The entry is a state file that can be read and decoded, whose version is known, and whose name
  -- is the one that the intent it holds is written under.
  pub record IsSavedAs (mount : DesiredMount) (entry : Entry) : Type 0 where
    pub is_file : IsStateFile entry
    pub payload : Str
    pub readable : entry.contents ≡ ok payload
    pub state : MountStateFile
    pub decoded : decode payload ≡ ok state
    pub intent : IsIntentOf mount state
    pub named : entry.name ≡ mount_state_filename f.sha256 (key mount)

  accepted :
      (name : Str) (state : MountStateFile) (mount : DesiredMount)
      → accept_state f name state ≡ ok mount
      → (IsIntentOf mount state) × (name ≡ mount_state_filename f.sha256 (key mount))
  unfolding accept_state
  accepted name state mount h = ground (arith, h)

  -- A file that loads is one that its intent is saved as.
  load_entry-IsSavedAs :
      (entry : Entry) (mount : DesiredMount)
      → IsStateFile entry
      → load_entry f decode entry ≡ ok mount
      → IsSavedAs mount entry
  unfolding load_entry
  load_entry-IsSavedAs entry mount is_file = read entry.contents refl
    where
      parse :
          (payload : Str) (d : Result MountStateFile)
          → entry.contents ≡ ok payload
          → decode payload ≡ d
          → Errors.◌>>=◌ (map_err (wrap "decode mount state") d) (accept_state f entry.name)
            ≡ ok mount
          → IsSavedAs mount entry
      parse payload (err e) c re h = cc h
      parse payload (ok state) c re h =
          let (intent, named) = accepted entry.name state mount h in
          record {
            is_file = is_file;
            payload = payload;
            readable = c;
            state = state;
            decoded = re;
            intent = intent;
            named = named;
          }

      read :
          (c : Result Str)
          → entry.contents ≡ c
          → Errors.◌>>=◌ (map_err (wrap "read mount state") c) (λ payload.
            Errors.◌>>=◌
              (map_err (wrap "decode mount state") (decode payload))
              (accept_state f entry.name))
            ≡ ok mount
          → IsSavedAs mount entry
      read (err e) re h = cc h
      read (ok payload) re h = parse payload (decode payload) re refl h

  -- What one entry does to the memory: nothing, where it is no state file; else its intent is put.
  abbrev IsLoadedInto : Entry → Memory → Memory → Type 0
  IsLoadedInto entry m next =
      ((IsStateFile entry → ⊥) × (next ≡ m))
      ⊎ ((mount : DesiredMount) × IsSavedAs mount entry × (next ≡ put_in_memory mount m))

  is_state_file :
      (entry : Entry)
      → (entry.is_dir || not (has_suffix entry.name (codes ".json"))) ≡ false
      → IsStateFile entry
  is_state_file entry h = ground (arith, h)

  is_no_state_file :
      (entry : Entry)
      → (entry.is_dir || not (has_suffix entry.name (codes ".json"))) ≡ true
      → IsStateFile entry
      → ⊥
  is_no_state_file entry h is_file = ground (arith, h, is_file)

  ok-eq : {A : Type 0} (a b : A) → ok a ≡ ok b → b ≡ a
  ok-eq a b h = cc h

  load_into-IsLoadedInto :
      (entry : Entry) (m next : Memory)
      → load_into f decode entry m ≡ ok next
      → IsLoadedInto entry m next
  unfolding load_into
  load_into-IsLoadedInto entry m next =
      skip (entry.is_dir || not (has_suffix entry.name (codes ".json"))) refl
    where
      go :
          (r : Result DesiredMount)
          → load_entry f decode entry ≡ r
          → IsStateFile entry
          → Errors.◌>>=◌ r (λ mount. ok (put_in_memory mount m)) ≡ ok next
          → IsLoadedInto entry m next
      go (err e) re is_file h = cc h
      go (ok mount) re is_file h =
          inr (
            mount,
            load_entry-IsSavedAs entry mount is_file re,
            ok-eq (put_in_memory mount m) next h,
          )

      skip :
          (b : Bool)
          → (entry.is_dir || not (has_suffix entry.name (codes ".json"))) ≡ b
          → (if b
              then ok m
              else Errors.◌>>=◌ (load_entry f decode entry) (λ mount. ok (put_in_memory mount m)))
            ≡ ok next
          → IsLoadedInto entry m next
      skip true e h = inl (is_no_state_file entry e, ok-eq m next h)
      skip false e h = go (load_entry f decode entry) refl (is_state_file entry e) h

  -- What loading leaves in memory: the index is in order; every intent in it was there before, or is
  -- what an entry saves; and every state file is readable and saves an intent whose key is present.
  pub record IsLoaded (entries : List Entry) (m loaded : Memory) : Type 0 where
    pub indexed : IsIndexed loaded
    pub kept : (k : MountKey) → lookup k m.mounts ≢ none → lookup k loaded.mounts ≢ none
    pub sources :
        (k : MountKey) (mount : DesiredMount)
        → lookup k loaded.mounts ≡ some mount
        → (lookup k m.mounts ≡ some mount) ⊎ Any (IsSavedAs mount) entries
    pub complete :
        All
          (λ entry.
            IsStateFile entry
            → (mount : DesiredMount) × IsSavedAs mount entry
              × (lookup (key mount) loaded.mounts ≢ none))
          entries

  put-kept :
      (mount : DesiredMount) (m : Memory) (k : MountKey)
      → IsIndexed m
      → lookup k m.mounts ≢ none
      → lookup k (put_in_memory mount m).mounts ≢ none
  put-kept mount m k i h e = ground (arith, lookup-put_in_memory mount k m i, h, e)

  put-present :
      (mount : DesiredMount) (m : Memory)
      → IsIndexed m
      → lookup (key mount) (put_in_memory mount m).mounts ≢ none
  put-present mount m i e = ground (arith, lookup-put_in_memory mount (key mount) m i, e)

  put-sources :
      (new : DesiredMount) (m : Memory) (k : MountKey) (mount : DesiredMount)
      → IsIndexed m
      → lookup k (put_in_memory new m).mounts ≡ some mount
      → (lookup k m.mounts ≡ some mount) ⊎ (new ≡ mount)
  put-sources new m k mount i h = ground (arith, lookup-put_in_memory new k m i, h)

  -- One entry, and then the rest.
  entry-IsLoaded :
      (entry : Entry) (entries : List Entry) (m next loaded : Memory)
      → IsIndexed m
      → IsLoadedInto entry m next
      → (IsIndexed next → IsLoaded entries next loaded)
      → IsLoaded (entry ∷ entries) m loaded
  entry-IsLoaded entry entries m next loaded i (inl (skipped, same)) rest =
      let l = rest (subst IsIndexed (sym same) i) in
      record {
        indexed = l.indexed;
        kept = λ k h. l.kept k (subst (λ (n : Memory). lookup k n.mounts ≢ none) (sym same) h);
        sources = λ k mount h. elim (l.sources k mount h) [
          | inl before ↦ inl (subst (λ (n : Memory). lookup k n.mounts ≡ some mount) same before)
          | inr saved ↦ inr (inr saved)
        ];
        complete = (λ is_file. absurd (skipped is_file), l.complete);
      }
  entry-IsLoaded entry entries m next loaded i (inr (new, saved, same)) rest =
      let l = rest (subst IsIndexed (sym same) (put_in_memory-IsIndexed new m i)) in
      record {
        indexed = l.indexed;
        kept = λ k h.
            l.kept k
              (subst (λ (n : Memory). lookup k n.mounts ≢ none) (sym same) (put-kept new m k i h));
        sources = λ k mount h. elim (l.sources k mount h) [
          | inl before ↦
              put_source k mount
                (subst (λ (n : Memory). lookup k n.mounts ≡ some mount) same before)
          | inr other ↦ inr (inr other)
        ];
        complete = (
          λ is_file. (
            new,
            saved,
            l.kept (key new) (
                subst (λ (n : Memory). lookup (key new) n.mounts ≢ none) (sym same)
                  (put-present new m i)),
          ),
          l.complete,
        );
      }
    where
      put_source :
          (k : MountKey) (mount : DesiredMount)
          → lookup k (put_in_memory new m).mounts ≡ some mount
          → (lookup k m.mounts ≡ some mount) ⊎ Any (IsSavedAs mount) (entry ∷ entries)
      put_source k mount h = elim (put-sources new m k mount i h) [
        | inl before ↦ inl before
        | inr e ↦ inr (inl (subst (λ (x : DesiredMount). IsSavedAs x entry) e saved))
      ]

  -- If the memory has its index in order and loading the entries succeeds, then what is loaded has
  -- it, too; it holds an intent under every key that was there before; every intent in it was there
  -- before or is saved in an entry, which is a regular file named *.json with a known version, whose
  -- export-root decision counts only in the present one, and whose name is the one derived from the
  -- intent's key; and no such file has been passed over.
  pub load-IsLoaded :
      (entries : List Entry) (m loaded : Memory)
      → IsIndexed m
      → load f decode entries m ≡ ok loaded
      → IsLoaded entries m loaded
  unfolding load
  load-IsLoaded [] m loaded i h = subst (IsLoaded [] m) (sym (ok-eq m loaded h)) (record {
    indexed = i;
    kept = λ k present. present;
    sources = λ k mount found. inl found;
    complete = tt;
  })
  load-IsLoaded (entry ∷ entries) m loaded i h =
      go (load_into f decode entry m) refl h (λ next. load-IsLoaded entries next loaded)
    where
      go :
          (r : Result Memory)
          → load_into f decode entry m ≡ r
          → Errors.◌>>=◌ r (load f decode entries) ≡ ok loaded
          → ((next : Memory)
              → IsIndexed next
              → load f decode entries next ≡ ok loaded
              → IsLoaded entries next loaded)
          → IsLoaded (entry ∷ entries) m loaded
      go (err e) re k rest = cc k
      go (ok next) re k rest =
          entry-IsLoaded entry entries m next loaded i (load_into-IsLoadedInto entry m next re)
            (λ j. rest next j k)
