-- ===== src/LogFiles/Newest.antt =====
-- Which files stay when old logs are removed.
use grpc_server_rust.Prelude.{
  ℕ, suc, ◌-◌, ◌≤◌, ◌<◌, min, ◌≡◌, refl, sym, ap, ◌∙◌, arith, Bool-cases, inl, inr, false, leb,
  Option, some, List, [], ◌∷◌, ◌++◌, Str, length, retain, All,
}
use mathlib.Core.Path.{subst}
use mathlib.Core.List.{Perm}
use mathlib.Core.List.Perm
use grpc_server_rust.LogFiles.{
  LogFile, insert_by, sort_by_modified, also_removed, remove_oldest, is_log_of, cleanup_old_logs,
}

abbrev pub NoneOlder : LogFile → List LogFile → Type 0
NoneOlder f gs = All (λ g. f.modified ≤ g.modified) gs

abbrev IsSorted : List LogFile → Type 0
IsSorted [] = Unit {0}
IsSorted (f ∷ fs) = NoneOlder f fs × IsSorted fs

All-insert_by :
    (P : LogFile → Type 0) (f : LogFile) (gs : List LogFile)
    → P f
    → All P gs
    → All P (insert_by f gs)
unfolding insert_by
All-insert_by P f [] p ps = (p, tt)
All-insert_by P f (g ∷ gs) p (q, qs) = elim (Bool-cases (leb f.modified g.modified)) [
  | inl first ↦ rw first (p, (q, qs))
  | inr later ↦ rw later (q, All-insert_by P f gs p qs)
]

NoneOlder-trans :
    (f g : LogFile) (gs : List LogFile) → f.modified ≤ g.modified → NoneOlder g gs → NoneOlder f gs
NoneOlder-trans f g [] h hs = tt
NoneOlder-trans f g (k ∷ gs) h (a, hs) = (omega (arith, h, a), NoneOlder-trans f g gs h hs)

insert_by-IsSorted : (f : LogFile) (gs : List LogFile) → IsSorted gs → IsSorted (insert_by f gs)
unfolding insert_by
insert_by-IsSorted f [] h = (tt, tt)
insert_by-IsSorted f (g ∷ gs) (a, h) = elim (Bool-cases (leb f.modified g.modified)) [
  | inl first ↦
      let le : f.modified ≤ g.modified = ground arith in
      rw first ((le, NoneOlder-trans f g gs le a), (a, h))
  | inr later ↦
      let le : g.modified ≤ f.modified = ground arith in
      rw later (All-insert_by _ f gs le a, insert_by-IsSorted f gs h)
]

sort_by_modified-IsSorted : (fs : List LogFile) → IsSorted (sort_by_modified fs)
unfolding sort_by_modified
sort_by_modified-IsSorted [] = tt
sort_by_modified-IsSorted (f ∷ fs) =
    insert_by-IsSorted f (sort_by_modified fs) (sort_by_modified-IsSorted fs)

insert_by-perm : (f : LogFile) (gs : List LogFile) → Perm (insert_by f gs) (f ∷ gs)
unfolding insert_by
insert_by-perm f [] = Perm.refl (f ∷ [])
insert_by-perm f (g ∷ gs) = elim (Bool-cases (leb f.modified g.modified)) [
  | inl first ↦ rw first (Perm.refl (f ∷ g ∷ gs))
  | inr later ↦ rw later (Perm.trans (Perm.cons g (insert_by-perm f gs)) (Perm.swap f g gs))
]

sort_by_modified-perm : (fs : List LogFile) → Perm (sort_by_modified fs) fs
unfolding sort_by_modified
sort_by_modified-perm [] = Perm.refl []
sort_by_modified-perm (f ∷ fs) =
    Perm.trans (insert_by-perm f (sort_by_modified fs)) (Perm.cons f (sort_by_modified-perm fs))

length-insert_by : (f : LogFile) (gs : List LogFile) → length (insert_by f gs) ≡ suc (length gs)
unfolding insert_by
length-insert_by f [] = refl
length-insert_by f (g ∷ gs) = ground (arith, length-insert_by f gs)

length-sort_by_modified : (fs : List LogFile) → length (sort_by_modified fs) ≡ length fs
unfolding sort_by_modified
length-sort_by_modified [] = refl
length-sort_by_modified (f ∷ fs) =
    length-insert_by f (sort_by_modified fs) ∙ ap (λ n. suc n) (length-sort_by_modified fs)

-- The loop on sorted files.
abbrev IsSplit : ℕ → List LogFile → Option (List LogFile × List LogFile) → Type 0
IsSplit n fs o =
    (removed : List LogFile) × (kept : List LogFile) × (o ≡ some (removed, kept))
    × (length kept ≡ min (length fs) (n - 1))
    × (removed ++ kept ≡ fs)
    × All (λ f. NoneOlder f kept) removed
    × ((f : LogFile) → NoneOlder f fs → NoneOlder f kept)

remove_oldest-IsSplit :
    (n : ℕ) (fs : List LogFile) → 0 < n → IsSorted fs → IsSplit n fs (remove_oldest fs n)
unfolding remove_oldest
remove_oldest-IsSplit n [] h sorted = ([], [], rw no_room refl, omega arith, refl, tt, λ f x. x)
  where
    no_room : leb n 0 ≡ false
    no_room = ground arith
remove_oldest-IsSplit n (f ∷ fs) h (a, sorted) = elim (Bool-cases (leb n (length (f ∷ fs)))) [
  | inl full ↦
      let le : n ≤ suc (length fs) = ground arith in
      let (removed, kept, eq, size, total, older, keeps) = remove_oldest-IsSplit n fs h sorted in
      rw full (
        f ∷ removed,
        kept,
        ap (also_removed f) eq,
        omega (arith, size, le, h),
        ap (λ l. f ∷ l) total,
        (keeps f a, older),
        λ g x. keeps g x.1,
      )
  | inr room ↦
      let lt : suc (length fs) < n = ground arith in
      rw room ([], f ∷ fs, refl, omega (arith, lt), refl, tt, λ g x. x)
]

abbrev pub logs_of : List LogFile → Str → List LogFile
logs_of entries prefix = retain (is_log_of prefix) entries

-- With a limit above 0, the removal of old logs ends: the files that it removes and those that it
-- keeps are together the log files of the prefix, each one as often as it is there. It keeps one less
-- than the limit, or all if there are not so many, and none that it removes is newer than one that it
-- keeps.
pub cleanup_keeps_newest :
    (entries : List LogFile) (prefix : Str) (max_num : ℕ)
    → 0 < max_num
    → (removed : List LogFile) × (kept : List LogFile) × (cleanup_old_logs entries prefix max_num
        ≡ some (removed, kept))
      × Perm (removed ++ kept) (logs_of entries prefix)
      × (length kept ≡ min (length (logs_of entries prefix)) (max_num - 1))
      × All (λ f. NoneOlder f kept) removed
unfolding cleanup_old_logs
cleanup_keeps_newest entries prefix max_num h =
    let logs = logs_of entries prefix in
    let same = sort_by_modified-perm logs in
    let (removed, kept, eq, size, total, older, keeps) =
      remove_oldest-IsSplit max_num (sort_by_modified logs) h (sort_by_modified-IsSorted logs) in
    (
      removed,
      kept,
      eq,
      subst (λ l. Perm l logs) (sym total) same,
      rw (← length-sort_by_modified logs) size,
      older,
    )
