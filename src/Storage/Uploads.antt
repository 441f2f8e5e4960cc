-- ===== src/Storage/Uploads.antt =====
-- When an upload becomes usable.
use zolexai.Prelude.{
  ℕ, String, ◌≤◌, ◌≡◌, ◌⊎◌, inl, inr, refl, sym, Option, some, List, [], ◌∷◌, arith, ltb,
  Bool-cases, Option-cases,
}
use mathlib.Core.Path.{subst}
use zolexai.Job.{Asset}
use zolexai.Storage.{
  find_asset, find_asset_for_user, put_asset, is_ready, confirm_upload, committed, confirm_found,
  confirm, max_size_bytes,
}

find_asset-put_asset :
    (row : Asset) (id : ℕ) (assets : List Asset) {a : Asset}
    → find_asset id (put_asset row assets) ≡ some a
    → (find_asset id assets ≡ some a) ⊎ (a ≡ row)
unfolding find_asset put_asset
find_asset-put_asset row id [] e = ground arith
find_asset-put_asset row id (x ∷ xs) {a} e = ground (arith, find_asset-put_asset row id xs {a = a})

-- An asset that a confirmation leaves as it was, or that storage vouches for: an object of its
-- size, within the limit of its kind, lies under its key.
abbrev pub Vouched : (String → Option ℕ) → Asset → Type 0
Vouched stat a =
    (size : ℕ) × (stat a.storage_key ≡ some size)
    × (a.size_bytes ≡ some size)
    × (size ≤ max_size_bytes a.kind)

module _ (stat : String → Option ℕ) (assets : List Asset) (duration width height : Option ℕ) where
  confirmed :
      (asset : Asset) (id : ℕ) {a : Asset}
      → find_asset id
          (committed assets
            (confirm_upload (stat asset.storage_key) assets asset duration width height)).1
        ≡ some a
      → (find_asset id assets ≡ some a) ⊎ Vouched stat a
  unfolding committed confirm_upload
  confirmed asset id {a} e = elim (Bool-cases (is_ready asset.status)) [
    | inl t ↦ inl (rw t at e)
    | inr t ↦ elim (Option-cases (stat asset.storage_key)) [
      | inl absent ↦ inl (rw (t, absent) at e)
      | inr (size, held) ↦ elim (Bool-cases (ltb (max_size_bytes asset.kind) size)) [
        | inl big ↦ inl (rw (t, held, big) at e)
        | inr fits ↦ elim (find_asset-put_asset _ id assets (rw (t, held, fits) at e)) [
          | inl old ↦ inl old
          | inr new ↦ inr (subst (λ x. Vouched stat x) (sym new) (size, held, refl, ground arith))
        ]
      ]
    ]
  ]

  -- After a confirmation, whatever it answers, each asset is as it was, or storage holds an object
  -- under its key whose size is recorded and within the limit of its kind.
  pub confirm-Vouched :
      (id user other : ℕ) {a : Asset}
      → find_asset other (confirm stat assets id user duration width height).1 ≡ some a
      → (find_asset other assets ≡ some a) ⊎ Vouched stat a
  unfolding confirm confirm_found
  confirm-Vouched id user other {a} e = elim (Option-cases (find_asset_for_user id user assets)) [
    | inl missing ↦ inl (rw missing at e)
    | inr (asset, found) ↦ confirmed asset other (rw found at e)
  ]
