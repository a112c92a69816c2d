-- ===== src/Snapshots/Image/Restores.antt =====
-- A saved forensic snapshot has the headers that the repair is about to change.
use fhdb_bootstrap_manager.Common.{
  ℕ, zero, suc, ◌+◌, ◌*◌, ◌-◌, ◌/◌, ◌^◌, ◌<◌, ◌≡◌, inl, inr, refl, sym, ap, ◌∙◌, ◌||◌, List, [],
  ◌∷◌, some, ltb, leb, ◌==◌, ◌!=◌, length, get_or, Bool-cases, arith, subst,
}
use fhdb_bootstrap_manager.Common.Results.{Result, err, ok, ok-exact}
use fhdb_bootstrap_manager.Common.Arrays.{memcpy_before}
use fhdb_bootstrap_manager.Common.Bytes.{Bytes, le32_bytes, memcpy, memcpy_inside, write_le32}
use fhdb_bootstrap_manager.Apa.{header_size}
use fhdb_bootstrap_manager.ApaForensic.{Node, ScanResult, node_at, max_patches}
use fhdb_bootstrap_manager.ApaForensic.RepairPlan.{Patch, no_patch, RepairPlan}
use fhdb_bootstrap_manager.Storage.{Files}
use fhdb_bootstrap_manager.Storage.Laws.{FileLaws}
use fhdb_bootstrap_manager.Snapshots.{forensic_failures, forensic_names}
use fhdb_bootstrap_manager.Snapshots.Saved.{save_loop-Holds}
use fhdb_bootstrap_manager.Snapshots.Image.{
  header_bytes, entry_bytes, trailer_bytes, digest, put_header, put_entry, put_entries, size_for,
  seal, build_snapshot_image, save_image, forensic_snapshot_save,
}

-- The entry of a patch at an offset: the sector, and the header that was read from it.
abbrev pub IsEntry : ScanResult → Patch → Bytes → ℕ → Type 0
IsEntry result patch bytes offset =
    ((i : ℕ) → i < 4 → bytes (offset + i) ≡ le32_bytes patch.lba i)
    × ((i : ℕ)
        → i < header_size
        → bytes (offset + 36 + i) ≡ (node_at result.nodes patch.node_index).header i)

put_entry-IsEntry :
    (result : ScanResult) (patch : Patch) (image : Bytes) (offset : ℕ)
    → IsEntry result patch
        (put_entry image offset patch (node_at result.nodes patch.node_index))
        offset
put_entry-IsEntry result patch image offset =
    let node = node_at result.nodes patch.node_index in
    let first = write_le32 image offset patch.lba in
    let second = memcpy first (offset + 4) (digest node.header header_size) 32 in
    (
      λ i h.
          let back : offset + i - offset ≡ i = omega arith in
          memcpy_before second (offset + 36) node.header header_size (offset + i) (omega arith)
          ∙ memcpy_before first (offset + 4) (digest node.header header_size) 32 (offset + i)
              (omega arith)
          ∙ memcpy_inside image offset (le32_bytes patch.lba) 4 (offset + i) (omega arith)
              (omega arith)
          ∙ ap (le32_bytes patch.lba) back,
      λ i h.
          let back : offset + 36 + i - (offset + 36) ≡ i = omega arith in
          memcpy_inside second (offset + 36) node.header header_size (offset + 36 + i) (omega arith)
            (omega arith)
          ∙ ap node.header back,
    )

put_entry-before :
    (patch : Patch) (node : Node) (image : Bytes) (offset i : ℕ)
    → i < offset
    → put_entry image offset patch node i ≡ image i
put_entry-before patch node image offset i h =
    let first = write_le32 image offset patch.lba in
    let second = memcpy first (offset + 4) (digest node.header header_size) 32 in
    memcpy_before second (offset + 36) node.header header_size i (omega arith)
    ∙ memcpy_before first (offset + 4) (digest node.header header_size) 32 i (omega arith)
    ∙ memcpy_before image offset (le32_bytes patch.lba) 4 i h

IsEntry-congr :
    (result : ScanResult) (patch : Patch) (a b : Bytes) (offset : ℕ)
    → ((i : ℕ) → i < offset + entry_bytes → b i ≡ a i)
    → IsEntry result patch a offset
    → IsEntry result patch b offset
IsEntry-congr result patch a b offset same (at, header) = (
  λ i h. same (offset + i) (omega arith) ∙ at i h,
  λ i h. same (offset + 36 + i) (omega arith) ∙ header i h,
)

put_entries-before :
    (result : ScanResult) (patches : List Patch) (offset : ℕ) (image out : Bytes)
    → put_entries result patches offset image ≡ ok out
    → (i : ℕ) → i < offset
    → out i ≡ image i
unfolding put_entries
put_entries-before result [] offset image out e i h =
    ap (λ (b : Bytes). b i) (sym (ok-exact image out e))
put_entries-before result (patch ∷ patches) offset image out e i h =
    let node = node_at result.nodes patch.node_index in
    elim (Bool-cases (leb (length result.nodes) patch.node_index)) [
      | inl bad ↦ absurd (ground (arith, rw bad at e))
      | inr known ↦ elim (Bool-cases (node.lba != patch.lba)) [
        | inl bad ↦ absurd (ground (arith, rw (known, bad) at e))
        | inr same ↦
            put_entries-before result patches (offset + entry_bytes)
              (put_entry image offset patch node) out (rw (known, same) at e) i (omega arith)
            ∙ put_entry-before patch node image offset i h
      ]
    ]

IsEntry-at :
    (result : ScanResult) (patch : Patch) (patches : List Patch) (offset : ℕ) (image out : Bytes)
    (j : ℕ)
    → ((k : ℕ)
        → k < length patches
        → IsEntry result (get_or patches k no_patch) out (offset + entry_bytes + k * entry_bytes))
    → IsEntry result patch out offset
    → j < suc (length patches)
    → IsEntry result (get_or (patch ∷ patches) j no_patch) out (offset + j * entry_bytes)
IsEntry-at result patch patches offset image out zero later first h =
    subst (IsEntry result patch out) (omega arith) first
IsEntry-at result patch patches offset image out (suc k) later first h =
    subst (IsEntry result (get_or patches k no_patch) out) (omega arith) (later k (omega arith))

put_entries-IsEntry :
    (result : ScanResult) (patches : List Patch) (offset : ℕ) (image out : Bytes) (j : ℕ)
    → put_entries result patches offset image ≡ ok out
    → j < length patches
    → IsEntry result (get_or patches j no_patch) out (offset + j * entry_bytes)
unfolding put_entries
put_entries-IsEntry result [] offset image out j e h = absurd (omega arith)
put_entries-IsEntry result (patch ∷ patches) offset image out j e h =
    let node = node_at result.nodes patch.node_index in
    elim (Bool-cases (leb (length result.nodes) patch.node_index)) [
      | inl bad ↦ absurd (ground (arith, rw bad at e))
      | inr known ↦ elim (Bool-cases (node.lba != patch.lba)) [
        | inl bad ↦ absurd (ground (arith, rw (known, bad) at e))
        | inr same ↦
            let rest = rw (known, same) at e in
            let put = put_entry image offset patch node in
            IsEntry-at result patch patches offset image out j
              (λ k below.
                put_entries-IsEntry result patches (offset + entry_bytes) put out k rest below)
              (IsEntry-congr result patch put out offset
                (put_entries-before result patches (offset + entry_bytes) put out rest)
                (put_entry-IsEntry result patch image offset))
              h
      ]
    ]

seal-IsEntry :
    (result : ScanResult) (patches : List Patch) (made : Result Bytes) (image start : Bytes)
    (size j : ℕ)
    → put_entries result patches header_bytes start ≡ made
    → seal (size_for (length patches)) made ≡ ok (size, image)
    → j < length patches
    → (size ≡ size_for (length patches))
      × IsEntry result (get_or patches j no_patch) image (header_bytes + j * entry_bytes)
unfolding seal
seal-IsEntry result patches (err code) image start size j made e h = absurd (ground (arith, e))
seal-IsEntry result patches (ok out) image start size j made e h =
    let whole = size_for (length patches) in
    let end = whole - trailer_bytes in
    let sealed = memcpy out end (digest out end) trailer_bytes in
    let both = ok-exact (whole, sealed) (size, image) e in
    (
      sym (ap (λ (p : ℕ × Bytes). p.0) both),
      IsEntry-congr result (get_or patches j no_patch) out image (header_bytes + j * entry_bytes)
          (λ i below.
            ap (λ (p : ℕ × Bytes). p.1 i) (sym both)
            ∙ memcpy_before out end (digest out end) trailer_bytes i (omega arith))
          (put_entries-IsEntry result patches header_bytes start out j made h),
    )

built-IsEntry :
    (result : ScanResult) (plan : RepairPlan) (size j : ℕ) (image : Bytes)
    → build_snapshot_image result plan ≡ ok (size, image)
    → j < length plan.patches
    → (size ≡ size_for (length plan.patches))
      × IsEntry result (get_or plan.patches j no_patch) image (header_bytes + j * entry_bytes)
unfolding build_snapshot_image
built-IsEntry result plan size j image e h =
    let count = length plan.patches in
    let most = (2 ^ 32 - 1 - header_bytes - trailer_bytes) / entry_bytes in
    elim (Bool-cases (count == 0 || ltb max_patches count)) [
      | inl bad ↦ absurd (ground (arith, rw bad at e))
      | inr few ↦ elim (Bool-cases (ltb most count)) [
        | inl bad ↦ absurd (ground (arith, rw (few, bad) at e))
        | inr fits ↦
            let start = put_header result plan in
            seal-IsEntry result plan.patches (put_entries result plan.patches header_bytes start)
              image start size j refl (rw (few, fits) at e) h
      ]
    ]

module _ (S : Type 0) (files : Files S) (laws : FileLaws S files) where
  image_saved :
      (storage : ℕ) (result : ScanResult) (plan : RepairPlan) (s : S) (path : List ℕ) (j : ℕ)
      (built : Result (ℕ × Bytes))
      → build_snapshot_image result plan ≡ built
      → (save_image S files storage built s).0 ≡ ok path
      → j < length plan.patches
      → (bytes : Bytes) × (laws.content (save_image S files storage built s).1 path
          ≡ some (size_for (length plan.patches), bytes))
        × IsEntry result (get_or plan.patches j no_patch) bytes (header_bytes + j * entry_bytes)
  unfolding save_image
  image_saved storage result plan s path j (err code) built e h = absurd (ground (arith, e))
  image_saved storage result plan s path j (ok (size, image)) built e h =
      let (bytes, file, held) =
        save_loop-Holds S files laws forensic_failures storage image size forensic_names s path e in
      let (whole, entry) = built-IsEntry result plan size j image built h in
      (
        bytes,
        file ∙ ap (λ (n : ℕ). some (n, bytes)) whole,
        IsEntry-congr result (get_or plan.patches j no_patch) image bytes
            (header_bytes + j * entry_bytes) (λ i below. held i (ground (arith, whole))) entry,
      )

  -- A forensic snapshot that is saved is in the file of the path that is returned, and for each patch of
  -- the plan, that file has the sector of the patch and the header of its node in the result of the scan.
  pub snapshot_restores :
      (storage : ℕ) (result : ScanResult) (plan : RepairPlan) (s : S) (path : List ℕ) (j : ℕ)
      → (forensic_snapshot_save S files storage result plan s).0 ≡ ok path
      → j < length plan.patches
      → (bytes : Bytes) × (laws.content
            (forensic_snapshot_save S files storage result plan s).1
            path
          ≡ some (size_for (length plan.patches), bytes))
        × IsEntry result (get_or plan.patches j no_patch) bytes (header_bytes + j * entry_bytes)
  unfolding forensic_snapshot_save
  snapshot_restores storage result plan s path j e h = elim (Bool-cases (leb 3 storage)) [
    | inl bad ↦ absurd (ground (arith, rw bad at e))
    | inr good ↦ rw good (
        image_saved storage result plan s path j (build_snapshot_image result plan) refl
          (rw good at e) h)
  ]
