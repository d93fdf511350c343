-- ===== src/Core/Snapshot/Store.antt =====
-- `SnapshotStore` of packages/nettwin_core/src/nettwin_core/snapshot.py: a directory of files by id.
use net_twin.Prelude.{
  ℕ, suc, ◌≡◌, refl, String, Bool, true, false, List, [], ◌∷◌, Option, none, some, ◌==◌, string_eq,
  contains, if◌then◌else◌, ltb, arith, inl, inr, Bool-cases, Option-cases,
}
use net_twin.Prelude.Text.{length, startswith}
use net_twin.Prelude.Dict.{find, put, find-put_same}
use net_twin.Prelude.Result.{Result, ok, err, ◌>>=◌, Result-cases}
use net_twin.Core.Snapshot.Read.{Snapshot}

abbrev pub SnapshotFiles : Type 0
SnapshotFiles = List (String × Snapshot)

-- `KeyError`: of a prefix that is too short, or that another number of snapshots than one has.
pub data LookupFault : Type 0 where
  too_short : String → LookupFault
  matches : String → ℕ → LookupFault

-- What exists is not written again.
unfoldable pub save : Snapshot → SnapshotFiles → SnapshotFiles
save s files = elim (find s.id files) [ none ↦ put s.id s files | some old ↦ files ]

unfoldable pub with_prefix : String → SnapshotFiles → List String
with_prefix prefix [] = []
with_prefix prefix ((id, s) ∷ files) =
    let rest = with_prefix prefix files in if startswith id prefix then id ∷ rest else rest

only : String → List String → Result LookupFault String
only prefix (id ∷ []) = ok id
only prefix [] = err (matches prefix 0)
only prefix (a ∷ b ∷ more) = err (matches prefix (count more))
  where
    count : List String → ℕ
    count [] = 2
    count (x ∷ xs) = suc (count xs)

unfoldable pub resolve : String → SnapshotFiles → Result LookupFault String
unfolding with_prefix only
resolve prefix files =
    if ltb (length prefix) 8 then err (too_short prefix) else only prefix (with_prefix prefix files)

read : String → SnapshotFiles → Result LookupFault Snapshot
read id files = elim (find id files) [ none ↦ err (matches id 0) | some s ↦ ok s ]

unfoldable pub load : String → SnapshotFiles → Result LookupFault Snapshot
unfolding resolve read
load prefix files = do id ← resolve prefix files; read id files

abbrev is_some : {A : Type 0} → Option A → Bool
is_some none = false
is_some (some a) = true

startswith_refl : (s : String) → startswith s s ≡ true
startswith_refl String.[] = refl
startswith_refl (String.◌∷◌ c s) = ground (arith, startswith_refl s)

-- What `resolve` gives begins with the prefix, and no other id of the directory does.
only-eq :
    (prefix : String) (ids : List String) (id : String) → only prefix ids ≡ ok id → ids ≡ id ∷ []
unfolding only
only-eq prefix [] id h = ground (arith, h)
only-eq prefix (a ∷ []) id h = ground (arith, h)
only-eq prefix (a ∷ b ∷ more) id h = ground (arith, h)

with_prefix_complete :
    (prefix : String) (files : SnapshotFiles) (id : String) (s : Snapshot)
    → find id files ≡ some s
    → startswith id prefix ≡ true
    → contains (with_prefix prefix files) id ≡ true
unfolding with_prefix find
with_prefix_complete prefix [] id s h p = ground (arith, h)
with_prefix_complete prefix ((k, t) ∷ files) id s h p =
    ground (arith, h, p, with_prefix_complete prefix files id s)

with_prefix_sound :
    (prefix : String) (files : SnapshotFiles) (id : String)
    → contains (with_prefix prefix files) id ≡ true
    → (startswith id prefix ≡ true) × (is_some (find id files) ≡ true)
unfolding with_prefix find
with_prefix_sound prefix [] id h = ground (arith, h)
with_prefix_sound prefix ((k, t) ∷ files) id h = elim (Bool-cases (startswith k prefix)) [
  | inl p ↦ elim (Bool-cases (id == k)) [
    | inl q ↦ (ground (arith, p, q), ground (arith, q))
    | inr q ↦
        let (a, b) = with_prefix_sound prefix files id (ground (arith, h, p, q)) in
        (a, ground (arith, q, b))
  ]
  | inr p ↦
      let (a, b) = with_prefix_sound prefix files id (ground (arith, h, p)) in
      (a, ground (arith, b))
]

resolve-eq :
    (prefix : String) (files : SnapshotFiles) (id : String)
    → resolve prefix files ≡ ok id
    → with_prefix prefix files ≡ id ∷ []
unfolding resolve
resolve-eq prefix files id h = only-eq prefix (with_prefix prefix files) id (ground (arith, h))

-- A snapshot that is loaded is the one of each stored id that begins with the text asked for.
pub load_unique :
    (prefix id : String) (files : SnapshotFiles) (s t : Snapshot)
    → load prefix files ≡ ok s
    → find id files ≡ some t
    → startswith id prefix ≡ true
    → s ≡ t
unfolding load read
load_unique prefix id files s t h at p = elim (Result-cases (resolve prefix files)) [
  | inr (e, q) ↦ ground (arith, h, q)
  | inl (id', q) ↦
      let one = resolve-eq prefix files id' q in
      let same : id ≡ id' =
        ground (arith, rw one at (with_prefix_complete prefix files id t at p)) in
      ground (arith, h, q, at, same)
]

with_prefix-put :
    (prefix k : String) (s : Snapshot) (files : SnapshotFiles)
    → with_prefix prefix files ≡ []
    → startswith k prefix ≡ true
    → with_prefix prefix (put k s files) ≡ k ∷ []
unfolding with_prefix put
with_prefix-put prefix k s [] h p = ground (arith, p)
with_prefix-put prefix k s ((l, t) ∷ files) h p = elim (Bool-cases (startswith l prefix)) [
  | inl q ↦ ground (arith, h, q)
  | inr q ↦ elim (Bool-cases (k == l)) [
    | inl r ↦ ground (arith, p, q, r)
    | inr r ↦ ground (arith, h, q, r, with_prefix-put prefix k s files)
  ]
]

with_prefix-find :
    (k : String) (files : SnapshotFiles) → with_prefix k files ≡ [] → find k files ≡ none
with_prefix-find k files h = elim (Option-cases (find k files)) [
  | inl gone ↦ gone
  | inr (s, e) ↦ ground (arith, rw h at (with_prefix_complete k files k s e (startswith_refl k)))
]

save-fresh :
    (s : Snapshot) (files : SnapshotFiles)
    → find s.id files ≡ none
    → save s files ≡ put s.id s files
unfolding save
save-fresh s files h = ground (arith, h)

load-resolved :
    (prefix id : String) (files : SnapshotFiles) (s : Snapshot)
    → ltb (length prefix) 8 ≡ false
    → with_prefix prefix files ≡ id ∷ []
    → find id files ≡ some s
    → load prefix files ≡ ok s
unfolding load resolve only read
load-resolved prefix id files s long one at = ground (arith, long, one, at)

-- A saved snapshot is loaded by its id, if the id has eight characters or more and no snapshot
-- before it has an id that begins with it.
pub load-save :
    (s : Snapshot) (files : SnapshotFiles)
    → ltb (length s.id) 8 ≡ false
    → with_prefix s.id files ≡ []
    → load s.id (save s files) ≡ ok s
unfolding load resolve save only read
load-save s files long fresh =
    let gone = with_prefix-find s.id files fresh in
    rw (save-fresh s files gone) (
      load-resolved s.id s.id (put s.id s files) s long
        (with_prefix-put s.id s.id s files fresh (startswith_refl s.id))
        (find-put_same s.id s files))
