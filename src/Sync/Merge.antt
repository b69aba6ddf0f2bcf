-- ===== src/Sync/Merge.antt =====
-- The merge of the shared vault, key by key.
use myminivault.Prelude.{
  inl, inr, Bool-cases, Bool, false, ◌≡◌, refl, ◌∙◌, ap, Option, none, some, [], ◌∷◌, if◌then◌else◌,
  Bytes, bytes_eq, bytes_eq_iff, Dict, lookup, entries, is_some, arith, ◌&&◌, ◌||◌, not, ◌==◌, ltb,
  or_else,
}
use myminivault.Model.{ExtendedVault, Time}
use myminivault.Sync.{
  ImportResult, no_changes, updated_at, sync_deleted, should_import_shared_value, import_value,
  import_values, deletes, import_deletion, import_deletions, import_shared_vault,
}
use myminivault.Sync.Marks.{
  Agree, should_import-Agree, Distinct, contents-import_value, updated_at-import_value,
  contents-import_deletion, updated_at-import_deletion,
}

deletes-Agree :
    (a b : ExtendedVault) (j : Bytes) (t : Time) → Agree a b j → deletes a j t ≡ deletes b j t
unfolding deletes
deletes-Agree a b j t h = ground (arith, h.value, h.time)

-- The value of `j` after a recorded deletion is looked at.
abbrev pub unless_deleted : ExtendedVault → Bytes → Option Time → Option Bytes
unless_deleted main j none = lookup j (entries main.contents)
unless_deleted main j (some t) = if deletes main j t then none else lookup j (entries main.contents)

unless_deleted-Agree :
    (a b : ExtendedVault) (j : Bytes) (mark : Option Time)
    → Agree a b j
    → unless_deleted a j mark ≡ unless_deleted b j mark
unless_deleted-Agree a b j none h = h.value
unless_deleted-Agree a b j (some t) h = ground (arith, h.value, deletes-Agree a b j t h)

-- Whether a run of the loop over the values `l` of the shared vault stores `j`.
abbrev takes : ExtendedVault → ExtendedVault → Dict Bytes → Bytes → Bool
takes main shared l j = is_some (lookup j l) && should_import_shared_value main shared j

abbrev Merged : Time → ExtendedVault → Dict Bytes → Bytes → ExtendedVault → ExtendedVault → Type 0
Merged now shared l j main main' =
    (lookup j (entries main'.contents)
      ≡ (if takes main shared l j then lookup j l else lookup j (entries main.contents)))
    × (updated_at main' j ≡ (if takes main shared l j then now else updated_at main j))

module _ (now : Time) (shared : ExtendedVault) (j : Bytes) where
  import_values-Merged :
      (l : Dict Bytes) (acc : ExtendedVault × ImportResult)
      → Distinct l
      → Merged now shared l j acc.0 (import_values now shared l acc).0
  unfolding import_values lookup
  import_values-Merged [] acc d = (refl, refl)
  import_values-Merged ((k, v) ∷ l) acc d =
      let contents = contents-import_value now shared acc.0 acc.1 k j v in
      let times = updated_at-import_value now shared acc.0 acc.1 k j v in
      let (found, timed) = import_values-Merged l (import_value now shared k v acc) d.1 in
      elim (Bool-cases (bytes_eq k j)) [
        | inl e ↦
            let same = (bytes_eq_iff k j).0 e in
            let once = ap (λ x. lookup x l) same in
            let decided = ap (λ x. should_import_shared_value acc.0 shared x) same in
            (
              ground (arith, e, found, contents, d.0, once, decided),
              ground (arith, e, timed, times, d.0, once, decided),
            )
        | inr e ↦
            let agree : Agree (import_value now shared k v acc).0 acc.0 j = record {
              value = ground (arith, e, contents);
              time = ground (arith, e, times);
            } in
            let decided =
              should_import-Agree (import_value now shared k v acc).0 acc.0 shared j agree in
            (
              ground (arith, e, found, agree.value, decided),
              ground (arith, e, timed, agree.time, decided),
            )
      ]

  import_deletions-deletes :
      (l : Dict Time) (acc : ExtendedVault × ImportResult)
      → Distinct l
      → lookup j (entries (import_deletions now l acc).0.contents)
        ≡ unless_deleted acc.0 j (lookup j l)
  unfolding import_deletions lookup
  import_deletions-deletes [] acc d = refl
  import_deletions-deletes ((k, t) ∷ l) acc d =
      let contents = contents-import_deletion now acc.0 acc.1 k j t in
      let times = updated_at-import_deletion now acc.0 acc.1 k j t in
      let rest = import_deletions-deletes l (import_deletion now k t acc) d.1 in
      elim (Bool-cases (bytes_eq k j)) [
        | inl e ↦
            let same = (bytes_eq_iff k j).0 e in
            let once = ap (λ x. lookup x l) same in
            let decided = ap (λ x. deletes acc.0 x t) same in
            ground (arith, e, rest, contents, d.0, once, decided)
        | inr e ↦
            let agree : Agree (import_deletion now k t acc).0 acc.0 j = record {
              value = ground (arith, e, contents);
              time = ground (arith, e, times);
            } in
            rw e (
              rest
              ∙ unless_deleted-Agree (import_deletion now k t acc).0 acc.0 j (lookup j l) agree)
      ]

-- Whether the first time is below the second, where both are recorded; the time 0 stands for none.
abbrev pub is_older : Time → Time → Bool
is_older u t = u == 0 || t == 0 || ltb u t

-- Whether the value `j` of the shared vault is one for the main vault: it is not the same, where a
-- missing value is the empty one, and the main one is older.
abbrev pub is_new : ExtendedVault → ExtendedVault → Bytes → Bool
is_new main shared j =
    not (
      bytes_eq (or_else (lookup j (entries main.contents)) [])
        (or_else (lookup j (entries shared.contents)) []))
    && is_older (updated_at main j) (updated_at shared j)

pub should_import-is_new :
    (main shared : ExtendedVault) (j : Bytes)
    → should_import_shared_value main shared j ≡ is_new main shared j
unfolding should_import_shared_value
should_import-is_new main shared j = ground arith

-- Whether the values `l` of the shared vault bring `j` into the main vault.
abbrev pub brings : ExtendedVault → ExtendedVault → Dict Bytes → Bytes → Bool
brings main shared l j = is_some (lookup j l) && is_new main shared j

-- The value and the time that the values of the shared vault leave at a key.
abbrev pub merged_value : ExtendedVault → ExtendedVault → Bytes → Option Bytes
merged_value main shared j =
    if brings main shared (entries shared.contents) j
    then lookup j (entries shared.contents)
    else lookup j (entries main.contents)

abbrev pub merged_time : Time → ExtendedVault → ExtendedVault → Bytes → Time
merged_time now main shared j =
    if brings main shared (entries shared.contents) j then now else updated_at main j

-- Whether a deletion that the shared vault records takes a key away that was changed at `u`.
abbrev pub taken_away : Time → Option Time → Bool
taken_away u none = false
taken_away u (some t) = not (t == 0) && (u == 0 || ltb u t)

unless_deleted-taken_away :
    (main : ExtendedVault) (j : Bytes) (mark : Option Time) (v : Option Bytes) (u : Time)
    → lookup j (entries main.contents) ≡ v
    → updated_at main j ≡ u
    → unless_deleted main j mark ≡ (if taken_away u mark then none else v)
unfolding deletes
unless_deleted-taken_away main j none v u h k = h
unless_deleted-taken_away main j (some t) v u h k = ground (arith, h, k)

-- `mainVault.Data` is made where it is nil.
start-Agree :
    (main : ExtendedVault) (j : Bytes)
    → Agree (record main { contents = some (entries main.contents) }) main j
unfolding updated_at
start-Agree main j = record { value = refl; time = refl }

-- After an import of the shared vault each key has the shared value, where there is one that differs
-- from the main one, a missing value counting as the empty one, and either its time is above that of
-- the main one or one of the two times is missing; it has the main value elsewhere. And it is gone,
-- where the shared vault records a time of its deletion that is above what is now the time of the
-- key, or the key has no time. No map has a key twice.
pub import_shared_vault-merged :
    (main shared : ExtendedVault) (now : Time) (j : Bytes)
    → Distinct (entries shared.contents)
    → Distinct (sync_deleted shared)
    → lookup j (entries (import_shared_vault main shared now).0.contents) ≡ (
        if taken_away (merged_time now main shared j) (lookup j (sync_deleted shared))
        then none
        else merged_value main shared j)
unfolding import_shared_vault
import_shared_vault-merged main shared now j d e =
    let start = record main { contents = some (entries main.contents) } in
    let same = start-Agree main j in
    let decided = should_import-Agree start main shared j same in
    let (found, timed) =
      import_values-Merged now shared j (entries shared.contents) (start, no_changes) d in
    import_deletions-deletes now shared j (sync_deleted shared)
      (import_values now shared (entries shared.contents) (start, no_changes)) e
    ∙ unless_deleted-taken_away
        (import_values now shared (entries shared.contents) (start, no_changes)).0 j
        (lookup j (sync_deleted shared)) (merged_value main shared j)
        (merged_time now main shared j)
        (ground (arith, found, decided, should_import-is_new main shared j))
        (ground (arith, timed, decided, same.time, should_import-is_new main shared j))
