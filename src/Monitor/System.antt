-- ===== src/Monitor/System.antt =====
-- The choice of a disk in src/monitor/system.rs. A disk is what the system library tells of it.
pub mod Snapshot
use mathlib.Core.Path.{subst}
use hi_mqtt.Prelude.{
  ℕ, ◌-◌, ◌≤◌, ◌≡◌, sym, Bool, none, some, List, [], ◌∷◌, Text, codes, text_eq, ltb, find,
  if◌then◌else◌, All, arith, Bool-cases, inl, inr,
}

pub record Disk : Type 0 where
  pub mount_point : Text
  pub total_space : ℕ
  pub available_space : ℕ

abbrev pub space : Disk → ℕ × ℕ
space disk = (disk.total_space, disk.total_space - disk.available_space)

abbrev pub is_root : Disk → Bool
is_root disk = text_eq disk.mount_point (codes "/")

-- The loop, with the best disk so far.
unfoldable pub pick_from : ℕ × ℕ → List Disk → ℕ × ℕ
pick_from best [] = best
pick_from best (disk ∷ disks) =
    if is_root disk
    then space disk
    else if ltb best.0 disk.total_space
    then pick_from (space disk) disks
    else pick_from best disks

unfoldable pub pick_root_disk : List Disk → ℕ × ℕ
unfolding pick_from
pick_root_disk disks = pick_from (0, 0) disks

pick_from-root :
    (best : ℕ × ℕ) (disks : List Disk) (d : Disk)
    → find is_root disks ≡ some d
    → pick_from best disks ≡ space d
unfolding pick_from find
pick_from-root best [] d h = cc
pick_from-root best (disk ∷ disks) d h = elim (Bool-cases (is_root disk)) [
  | inl e ↦ ground (arith, e)
  | inr e ↦ ground (arith, e, pick_from-root best disks d, pick_from-root (space disk) disks d)
]

-- A machine with a disk at `/` is shown that disk, wherever it stands in the list.
pub pick_root_disk-root :
    (disks : List Disk) (d : Disk)
    → find is_root disks ≡ some d
    → pick_root_disk disks ≡ (d.total_space, d.total_space - d.available_space)
unfolding pick_root_disk
pick_root_disk-root disks d h = pick_from-root (0, 0) disks d h

-- No disk exceeds what is shown, nor does the best before.
abbrev Bounds : ℕ × ℕ → List Disk → ℕ × ℕ → Type 0
Bounds best disks shown = (best.0 ≤ shown.0) × All (λ d. d.total_space ≤ shown.0) disks

pick_from-largest :
    (best : ℕ × ℕ) (disks : List Disk)
    → find is_root disks ≡ none
    → Bounds best disks (pick_from best disks)
unfolding pick_from find
pick_from-largest best [] h = (omega arith, tt)
pick_from-largest best (disk ∷ disks) h = elim (Bool-cases (is_root disk)) [
  | inl e ↦ absurd (cc (e, h))
  | inr e ↦ elim (Bool-cases (ltb best.0 disk.total_space)) [
    | inl less ↦
        let (up, all) = pick_from-largest (space disk) disks (ground (arith, e, h)) in
        let step : pick_from best (disk ∷ disks) ≡ pick_from (space disk) disks =
          ground (arith, e, less) in
        subst (Bounds best (disk ∷ disks)) (sym step) (ground (arith, up, less), (up, all))
    | inr more ↦
        let (up, all) = pick_from-largest best disks (ground (arith, e, h)) in
        let step : pick_from best (disk ∷ disks) ≡ pick_from best disks = ground (arith, e, more) in
        subst (Bounds best (disk ∷ disks)) (sym step) (up, (ground (arith, up, more), all))
  ]
]

-- A machine without one is shown a space that no disk exceeds.
pub pick_root_disk-largest :
    (disks : List Disk)
    → find is_root disks ≡ none
    → All (λ d. d.total_space ≤ (pick_root_disk disks).0) disks
unfolding pick_root_disk
pick_root_disk-largest disks h = (pick_from-largest (0, 0) disks h).1

-- Never is more shown as used than there is.
pub pick_from-used :
    (best : ℕ × ℕ) (disks : List Disk)
    → best.1 ≤ best.0
    → (pick_from best disks).1 ≤ (pick_from best disks).0
unfolding pick_from
pick_from-used best [] h = h
pick_from-used best (disk ∷ disks) h =
    ground (arith, pick_from-used best disks h, pick_from-used (space disk) disks)
