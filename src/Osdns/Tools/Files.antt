-- ===== src/Osdns/Tools/Files.antt =====
-- The two ways in which a file operation of src/osdns/macos.rs can end.
use dnsrivet.Prelude.{
  arith, ◌≡◌, refl, ◌⊎◌, inl, inr, Bool, true, false, none, some, List, [], ◌∷◌, ok, err,
}
use dnsrivet.Osdns.Backup.{Backup}
use dnsrivet.Osdns.Tools.{
  Error, create_marker_failed, remove_marker_failed, write_backup_failed, remove_backup_failed,
  World, on_disk, create_marker, remove_marker, write_backup, remove_backup, read_backup,
  read_backup_failed,
}

module _ {S : Type 0} where
  on_disk_ends :
      (effect : World S → World S) (e : Error) (disk : List Bool) (w : World S)
      → let before = record w { disk = disk } in
        (rest : List Bool) × ((on_disk effect e before ≡ (ok tt, effect (record w { disk = rest })))
          ⊎ (on_disk effect e before ≡ (err e, record w { disk = rest })))
  unfolding on_disk
  on_disk_ends effect e [] w = ([], inl refl)
  on_disk_ends effect e (false ∷ rest) w = (rest, inl refl)
  on_disk_ends effect e (true ∷ rest) w = (rest, inr refl)

  pub create_marker_ends :
      (w : World S)
      → (rest : List Bool) × ((create_marker w ≡ (ok tt, record w { marker = true; disk = rest }))
          ⊎ (create_marker w ≡ (err create_marker_failed, record w { disk = rest })))
  unfolding create_marker
  create_marker_ends w =
      on_disk_ends (λ w. record w { marker = true }) create_marker_failed w.disk w

  pub remove_marker_ends :
      (w : World S)
      → (rest : List Bool) × ((remove_marker w ≡ (ok tt, record w { marker = false; disk = rest }))
          ⊎ (remove_marker w ≡ (err remove_marker_failed, record w { disk = rest })))
  unfolding remove_marker
  remove_marker_ends w =
      on_disk_ends (λ w. record w { marker = false }) remove_marker_failed w.disk w

  pub write_backup_ends :
      (b : Backup) (w : World S)
      → (rest : List Bool) × ((write_backup b w
            ≡ (ok tt, record w { backup = some b; disk = rest }))
          ⊎ (write_backup b w ≡ (err write_backup_failed, record w { disk = rest })))
  unfolding write_backup
  write_backup_ends b w =
      on_disk_ends (λ w. record w { backup = some b }) write_backup_failed w.disk w

  pub remove_backup_ends :
      (w : World S)
      → (rest : List Bool) × ((remove_backup w ≡ (ok tt, record w { backup = none; disk = rest }))
          ⊎ (remove_backup w ≡ (err remove_backup_failed, record w { disk = rest })))
  unfolding remove_backup
  remove_backup_ends w =
      on_disk_ends (λ w. record w { backup = none }) remove_backup_failed w.disk w

  pub read_backup_ends :
      (b : Backup) (w : World S)
      → w.backup ≡ some b
      → (rest : List Bool) × ((read_backup w ≡ (ok b, record w { disk = rest }))
          ⊎ (read_backup w ≡ (err read_backup_failed, record w { disk = rest })))
  unfolding read_backup
  read_backup_ends b w stored = elim (on_disk_ends (λ w. w) read_backup_failed w.disk w).1 [
    | inl fine ↦ ((on_disk_ends (λ w. w) read_backup_failed w.disk w).0, inl (ground arith))
    | inr failed ↦ ((on_disk_ends (λ w. w) read_backup_failed w.disk w).0, inr (ground arith))
  ]

-- Where no file operation is to fail, each of them succeeds.
module _ {S : Type 0} (w : World S) (calm : w.disk ≡ []) where
  on_disk_calm : (effect : World S → World S) (e : Error) → on_disk effect e w ≡ (ok tt, effect w)
  unfolding on_disk
  on_disk_calm effect e = rw calm refl

  pub write_backup_calm : (b : Backup) → write_backup b w ≡ (ok tt, record w { backup = some b })
  unfolding write_backup
  write_backup_calm b = on_disk_calm (λ w. record w { backup = some b }) write_backup_failed

  pub create_marker_calm : create_marker w ≡ (ok tt, record w { marker = true })
  unfolding create_marker
  create_marker_calm = on_disk_calm (λ w. record w { marker = true }) create_marker_failed

  pub remove_marker_calm : remove_marker w ≡ (ok tt, record w { marker = false })
  unfolding remove_marker
  remove_marker_calm = on_disk_calm (λ w. record w { marker = false }) remove_marker_failed

  pub remove_backup_calm : remove_backup w ≡ (ok tt, record w { backup = none })
  unfolding remove_backup
  remove_backup_calm = on_disk_calm (λ w. record w { backup = none }) remove_backup_failed

  pub read_backup_calm : (b : Backup) → w.backup ≡ some b → read_backup w ≡ (ok b, w)
  unfolding read_backup
  read_backup_calm b stored = let fine = on_disk_calm (λ w. w) read_backup_failed in ground arith
