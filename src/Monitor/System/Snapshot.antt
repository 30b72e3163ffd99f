-- ===== src/Monitor/System/Snapshot.antt =====
-- `SystemSnapshot`, `collect_snapshot` and the loop of `SystemMonitor` in src/monitor/system.rs. The
-- floating-point numbers of the machine are a parameter, and so is what the system library reads.
use hi_mqtt.Prelude.{
  ℕ, zero, suc, ◌≤◌, ◌≡◌, ◌≢◌, refl, ap, ◌∙◌, false, Option, none, some, List, [], ◌∷◌, Text, codes,
  length, ◌==◌, if◌then◌else◌, arith,
}
use hi_mqtt.Monitor.System.{Disk, pick_root_disk, pick_from-used}

-- `f32` and `f64`, with the operations that the code uses.
pub record Floats (F32 F64 : Type 0) : Type 0 where
  pub f32_zero : F32
  pub f32_sum : List F32 → F32
  pub f32_of : ℕ → F32
  pub f32_div : F32 → F32 → F32
  pub f64_of : ℕ → F64
  pub f64_div : F64 → F64 → F64
  -- `(x * 100.0) as f32`
  pub percent : F64 → F32

pub record SystemSnapshot (F32 F64 : Type 0) : Type 0 where
  pub hostname : Text
  pub cpu_usage : F32
  pub cpu_cores : ℕ
  pub cpu_per_core : List F32
  pub memory_total_bytes : ℕ
  pub memory_used_bytes : ℕ
  pub memory_usage : F32
  pub swap_total_bytes : ℕ
  pub swap_used_bytes : ℕ
  pub disk_total_bytes : ℕ
  pub disk_used_bytes : ℕ
  pub disk_usage : F32
  pub load_avg_1 : F64
  pub load_avg_5 : F64
  pub load_avg_15 : F64
  pub uptime_secs : ℕ
  pub process_cpu : F32
  pub process_memory_bytes : ℕ
  pub updated_at : ℕ

-- What one collection reads: the usage of each core between the two samples, and the rest.
pub record Readings (F32 F64 : Type 0) : Type 0 where
  pub cpus : List F32
  pub total_memory : ℕ
  pub used_memory : ℕ
  pub total_swap : ℕ
  pub used_swap : ℕ
  pub disks : List Disk
  pub load_one : F64
  pub load_five : F64
  pub load_fifteen : F64
  -- The own process, where its number is known and it is in the list.
  pub process : Option (F32 × ℕ)
  pub host_name : Option Text
  pub uptime : ℕ
  pub now : ℕ

abbrev pub or_unknown : Option Text → Text
or_unknown none = codes "unknown"
or_unknown (some name) = name

module _ {F32 F64 : Type 0} (f : Floats F32 F64) where
  -- `if total == 0 { 0.0 } else { (used as f64 / total as f64 * 100.0) as f32 }`
  unfoldable pub usage : ℕ → ℕ → F32
  usage total used =
      if total == 0 then f.f32_zero else f.percent (f.f64_div (f.f64_of used) (f.f64_of total))

  unfoldable pub mean_usage : List F32 → F32
  mean_usage cpus =
      if length cpus == 0 then f.f32_zero else f.f32_div (f.f32_sum cpus) (f.f32_of (length cpus))

  abbrev pub own_process : Option (F32 × ℕ) → F32 × ℕ
  own_process none = (f.f32_zero, 0)
  own_process (some p) = p

  unfoldable pub collect_snapshot : Readings F32 F64 → SystemSnapshot F32 F64
  unfolding usage mean_usage pick_root_disk
  collect_snapshot r =
      let disk = pick_root_disk r.disks in
      let process = own_process r.process in
      record {
        hostname = or_unknown r.host_name;
        cpu_usage = mean_usage r.cpus;
        cpu_cores = length r.cpus;
        cpu_per_core = r.cpus;
        memory_total_bytes = r.total_memory;
        memory_used_bytes = r.used_memory;
        memory_usage = usage r.total_memory r.used_memory;
        swap_total_bytes = r.total_swap;
        swap_used_bytes = r.used_swap;
        disk_total_bytes = disk.0;
        disk_used_bytes = disk.1;
        disk_usage = usage disk.0 disk.1;
        load_avg_1 = r.load_one;
        load_avg_5 = r.load_five;
        load_avg_15 = r.load_fifteen;
        uptime_secs = r.uptime;
        process_cpu = process.0;
        process_memory_bytes = process.1;
        updated_at = r.now;
      }

  -- The rounds of the monitor's loop: a collection that panics leaves the snapshot.
  unfoldable pub snapshot_after :
      List (Option (Readings F32 F64)) → SystemSnapshot F32 F64 → SystemSnapshot F32 F64
  unfolding collect_snapshot
  snapshot_after [] snapshot = snapshot
  snapshot_after (none ∷ rounds) snapshot = snapshot_after rounds snapshot
  snapshot_after (some readings ∷ rounds) snapshot =
      snapshot_after rounds (collect_snapshot readings)

suc-neq-zero : (n : ℕ) → (suc n == 0) ≡ false
suc-neq-zero n = ground arith

-- The two know the same numbers, but need not agree on what a division by zero gives.
pub record AgreeOffZero {F32 F64 : Type 0} (f g : Floats F32 F64) : Type 0 where
  pub zeros : f.f32_zero ≡ g.f32_zero
  pub sums : (xs : List F32) → f.f32_sum xs ≡ g.f32_sum xs
  pub f32s : (n : ℕ) → f.f32_of n ≡ g.f32_of n
  pub f64s : (n : ℕ) → f.f64_of n ≡ g.f64_of n
  pub percents : (x : F64) → f.percent x ≡ g.percent x
  pub f32_divs : (x : F32) (n : ℕ) → n ≢ 0 → f.f32_div x (f.f32_of n) ≡ g.f32_div x (f.f32_of n)
  pub f64_divs : (x : F64) (n : ℕ) → n ≢ 0 → f.f64_div x (f.f64_of n) ≡ g.f64_div x (f.f64_of n)

module _ {F32 F64 : Type 0} (f g : Floats F32 F64) (agree : AgreeOffZero f g) where
  usage-agrees : (total used : ℕ) → usage f total used ≡ usage g total used
  unfolding usage
  usage-agrees zero used = ground (arith, agree.zeros)
  usage-agrees (suc n) used =
      let divided =
        agree.f64_divs (f.f64_of used) (suc n) (λ e. omega (arith, e))
        ∙ ap (λ (x : F64). g.f64_div x (f.f64_of (suc n))) (agree.f64s used)
        ∙ ap (λ (x : F64). g.f64_div (g.f64_of used) x) (agree.f64s (suc n)) in
      rw (suc-neq-zero n) (ap f.percent divided ∙ agree.percents _)

  mean_usage-agrees : (cpus : List F32) → mean_usage f cpus ≡ mean_usage g cpus
  unfolding mean_usage
  mean_usage-agrees [] = ground (arith, agree.zeros)
  mean_usage-agrees (c ∷ cpus) =
      let n = length (c ∷ cpus) in
      let divided =
        agree.f32_divs (f.f32_sum (c ∷ cpus)) n (λ e. omega (arith, e))
        ∙ ap (λ (x : F32). g.f32_div x (f.f32_of n)) (agree.sums (c ∷ cpus))
        ∙ ap (λ (x : F32). g.f32_div (g.f32_sum (c ∷ cpus)) x) (agree.f32s n) in
      rw (suc-neq-zero (length cpus)) divided

  own_process-agrees : (p : Option (F32 × ℕ)) → own_process f p ≡ own_process g p
  own_process-agrees none = ap (λ (x : F32). (x, 0)) agree.zeros
  own_process-agrees (some p) = refl

  collect_snapshot-agrees : (r : Readings F32 F64) → collect_snapshot f r ≡ collect_snapshot g r
  unfolding collect_snapshot
  collect_snapshot-agrees r = cc (
    usage-agrees r.total_memory r.used_memory,
    usage-agrees (pick_root_disk r.disks).0 (pick_root_disk r.disks).1,
    mean_usage-agrees r.cpus,
    own_process-agrees r.process,
  )

  -- What the system monitor shows, after any rounds of its loop, does not depend on what a division
  -- by zero gives.
  pub snapshot_after-agrees :
      (rounds : List (Option (Readings F32 F64))) (start : SystemSnapshot F32 F64)
      → snapshot_after f rounds start ≡ snapshot_after g rounds start
  unfolding snapshot_after
  snapshot_after-agrees [] start = refl
  snapshot_after-agrees (none ∷ rounds) start = snapshot_after-agrees rounds start
  snapshot_after-agrees (some r ∷ rounds) start =
      ap (snapshot_after f rounds) (collect_snapshot-agrees r)
      ∙ snapshot_after-agrees rounds (collect_snapshot g r)

-- No snapshot shows more of the disk as used than there is.
pub collect_snapshot-disk :
    {F32 F64 : Type 0} (f : Floats F32 F64) (r : Readings F32 F64)
    → (collect_snapshot f r).disk_used_bytes ≤ (collect_snapshot f r).disk_total_bytes
unfolding collect_snapshot pick_root_disk
collect_snapshot-disk f r = pick_from-used (0, 0) r.disks (omega arith)
