-- ===== src/Janitor/Steps.antt =====
-- What one step of the janitor does to files that it must spare.
use rs_detritus.Common.{
  ℕ, Bool, true, false, some, List, [], ◌∷◌, ◌*◌, ◌^◌, ◌<◌, nat_eq, list_eq, if◌then◌else◌, Result,
  ok, err, panic, pure, ◌≡◌, refl, ap, sym, ◌∙◌, arith, IsIn,
}
use rs_detritus.Common.Ends.{
  Ends, Ends-ok, Ends-err, Ends-bind, Ends-weaken, lift-Ends, map_err-Ends,
}
use rs_detritus.Common.Table.{lookup}
use rs_detritus.FilePath.{FilePath, strip_path_prefix}
use rs_detritus.Storage.{IoError, not_found, already_exists, other_io}
use rs_detritus.Disk.{File, Disk, Io, raise_io, attempt, read_file, remove_file, walk}
use rs_detritus.Disk.Spared.{
  IsSpared, ReadsAs, Meets, files_below-IsIn, operation-Ends, read_file-Ends, remove_file-Ends,
  walk-Ends,
}
use rs_detritus.Janitor.{
  JanitorStats, JanitorError, io, is_past, clock_now, is_older_than, file_len, is_nonempty,
  dir_exists, collect_files, delete_counted, count_removed, sweep_one,
}

-- The retention fits the clock of the system, so that no cutoff leaves it.
abbrev pub Fits : ℕ → Type 0
Fits ttl_days = ttl_days * 86400 < 2 ^ 63

is_past-runs :
    (ttl_days modified now : ℕ) → Fits ttl_days → ¬ (is_past ttl_days modified now ≡ panic)
unfolding is_past
is_past-runs ttl_days modified now fits e = ground arith

module _ (P : FilePath → Type 0) (d0 : Disk) where
  abbrev pub Spared : Disk → Type 0
  Spared = IsSpared P d0

  abbrev pub NoClaim : {A : Type 0} → A → Disk → Type 0
  NoClaim a d = Unit

  pub raise_io-Ends :
      {E A : Type 0} (Q : A → Disk → Type 0) (f : IoError → E) (m : Io A) (d : Disk)
      → Ends Spared Q (m d)
      → Ends Spared Q (raise_io f m d)
  unfolding raise_io
  raise_io-Ends Q f m d h = let (r, d') = m d in map_err-Ends Q f r d' h

  attempt-Ends :
      {E A : Type 0} (Q : A → Disk → Type 0) (m : Io A) (d : Disk)
      → Ends Spared Q (m d)
      → Ends {E = E} Spared (λ r _. ¬ (r ≡ panic)) (attempt m d)
  unfolding attempt
  attempt-Ends Q m d h = Ends-ok (m d).0 (m d).1 h.kept h.runs

  -- The verdict on a spared file is the one on the file as it stood at the start.
  abbrev pub Judged : FilePath → ℕ → Bool → Disk → Type 0
  Judged path ttl_days old d =
      P path
      → (f : File) × (lookup path d0.files ≡ some f)
        × (is_past ttl_days f.modified d0.clock ≡ ok old)

  pub is_older_than-Ends :
      (path : FilePath) (ttl_days : ℕ) (d : Disk)
      → Fits ttl_days
      → Spared d
      → Ends Spared (Judged path ttl_days) (is_older_than path ttl_days d)
  unfolding is_older_than clock_now
  is_older_than-Ends path ttl_days d fits h =
      Ends-bind (ReadsAs P d0 path) _ (raise_io io (read_file path)) _ d
        (raise_io-Ends (ReadsAs P d0 path) io (read_file path) d (read_file-Ends P d0 path d h))
        λ f d1 h1 reads.
          Ends-bind (λ now _. now ≡ d0.clock) _ clock_now _ d1 (Ends-ok d1.clock d1 h1 h1.clock)
            λ now d2 h2 at.
              Ends-weaken _ (Judged path ttl_days) _
                (λ old _ e hp. (f, reads hp, ap (is_past ttl_days f.modified) (sym at) ∙ e))
                (lift-Ends (is_past ttl_days f.modified now) d2
                  (is_past-runs ttl_days f.modified now fits) h2)

  pub file_len-Ends :
      (path : FilePath) (d : Disk) → Spared d → Ends Spared NoClaim (file_len path d)
  unfolding file_len
  file_len-Ends path d h =
      Ends-bind (λ r _. ¬ (r ≡ panic)) NoClaim (attempt (read_file path)) _ d
        (attempt-Ends (ReadsAs P d0 path) (read_file path) d (read_file-Ends P d0 path d h))
        (λ r d1 h1 _. Ends-ok _ d1 h1 tt)

  pub delete_counted-Ends :
      (path : FilePath) (d : Disk)
      → ¬ P path
      → Spared d
      → Ends Spared NoClaim (delete_counted path d)
  unfolding delete_counted
  delete_counted-Ends path d n h =
      Ends-bind NoClaim NoClaim (file_len path) _ d (file_len-Ends path d h) λ len d1 h1 _.
        Ends-bind NoClaim NoClaim (raise_io io (remove_file path)) _ d1
          (raise_io-Ends NoClaim io (remove_file path) d1 (remove_file-Ends P d0 path d1 n h1))
          (λ _ d2 h2 _. Ends-ok len d2 h2 tt)

  count_removed-Ends :
      (stats : JanitorStats) (len : ℕ) (r : Result IoError (Unit {0})) (d : Disk)
      → ¬ (r ≡ panic)
      → Spared d
      → Ends Spared NoClaim (count_removed stats len r d)
  unfolding count_removed
  count_removed-Ends stats len (ok a) d n h = Ends-ok _ d h tt
  count_removed-Ends stats len (err not_found) d n h = Ends-ok _ d h tt
  count_removed-Ends stats len (err already_exists) d n h = Ends-err _ d h
  count_removed-Ends stats len (err other_io) d n h = Ends-err _ d h
  count_removed-Ends stats len panic d n h = absurd (n refl)

  pub sweep_one-Ends :
      (blob : FilePath) (stats : JanitorStats) (d : Disk)
      → ¬ P blob
      → Spared d
      → Ends Spared NoClaim (sweep_one blob stats d)
  unfolding sweep_one
  sweep_one-Ends blob stats d n h =
      Ends-bind NoClaim NoClaim (file_len blob) _ d (file_len-Ends blob d h) λ len d1 h1 _.
        Ends-bind (λ r _. ¬ (r ≡ panic)) NoClaim (attempt (remove_file blob)) _ d1
          (attempt-Ends NoClaim (remove_file blob) d1 (remove_file-Ends P d0 blob d1 n h1))
          (λ r d2 h2 runs. count_removed-Ends stats len r d2 runs h2)

  -- A directory with a spared file is there.
  abbrev Finds : FilePath → Bool → Disk → Type 0
  Finds root there d =
      (q r : FilePath) (f : File)
      → P q
      → strip_path_prefix root q ≡ some r
      → lookup q d0.files ≡ some f
      → there ≡ true

  is_nonempty-IsIn : (q : FilePath) (ps : List FilePath) → IsIn q ps → is_nonempty ps ≡ true
  is_nonempty-IsIn q [] ([], after, e) = cc e
  is_nonempty-IsIn q [] (b ∷ before, after, e) = cc e
  is_nonempty-IsIn q (p ∷ ps) h = refl

  dir_exists-Ends :
      (root : FilePath) (d : Disk) → Spared d → Ends Spared (Finds root) (dir_exists root d)
  unfolding dir_exists
  dir_exists-Ends root d h = operation-Ends P d0 (Finds root) _ d h λ d' h'.
      Ends-ok _ d' h' λ q r f hq under there.
        is_nonempty-IsIn q _ (files_below-IsIn root q r f d'.files under (h'.files q hq ∙ there))

  walk_if-Ends :
      (there : Bool) (root : FilePath) (d : Disk)
      → Finds root there d
      → Spared d
      → Ends {E = JanitorError} Spared
          (Meets P d0 root)
          ((if there then raise_io io (walk root) else pure []) d)
  walk_if-Ends true root d finds h =
      raise_io-Ends (Meets P d0 root) io (walk root) d (walk-Ends P d0 root d h)
  walk_if-Ends false root d finds h =
      Ends-ok [] d h (λ q r f hq under there. absurd (cc (finds q r f hq under there)))

  pub collect_files-Ends :
      (root : FilePath) (d : Disk) → Spared d → Ends Spared (Meets P d0 root) (collect_files root d)
  unfolding collect_files
  collect_files-Ends root d h =
      Ends-bind (Finds root) (Meets P d0 root) (raise_io io (dir_exists root)) _ d
        (raise_io-Ends (Finds root) io (dir_exists root) d (dir_exists-Ends root d h))
        (λ there d1 h1 finds. walk_if-Ends there root d1 finds h1)
