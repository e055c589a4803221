-- ===== src/Resources.antt =====
-- internal/core/model.go: `Resources`, the vCPUs, MiB and GiB that the ledger counts in int64.
pub mod Laws
use runner_loom.Base.{Bool, ◌&&◌}
use runner_loom.Base.Int64
use runner_loom.Base.Int64.{ℤ, pos, le_ℤ, lt_ℤ, eq_ℤ}

pub record Resources : Type 0 where
  pub cpu : ℤ
  pub memory : ℤ
  pub disk : ℤ

unfoldable pub add : Resources → Resources → Resources
add r s = record {
  cpu = Int64.add r.cpu s.cpu;
  memory = Int64.add r.memory s.memory;
  disk = Int64.add r.disk s.disk;
}

unfoldable pub sub : Resources → Resources → Resources
sub r s = record {
  cpu = Int64.sub r.cpu s.cpu;
  memory = Int64.sub r.memory s.memory;
  disk = Int64.sub r.disk s.disk;
}

unfoldable pub mul : Resources → ℤ → Resources
mul r n = record {
  cpu = Int64.mul r.cpu n;
  memory = Int64.mul r.memory n;
  disk = Int64.mul r.disk n;
}

unfoldable pub fits : Resources → Resources → Bool
fits r s =
    le_ℤ (pos 0) r.cpu
    && le_ℤ (pos 0) r.memory
    && le_ℤ (pos 0) r.disk
    && le_ℤ r.cpu s.cpu
    && le_ℤ r.memory s.memory
    && le_ℤ r.disk s.disk

abbrev pub zero : Resources
zero = record { cpu = pos 0; memory = pos 0; disk = pos 0 }

unfoldable pub empty : Resources → Bool
empty r = eq_ℤ r.cpu (pos 0) && eq_ℤ r.memory (pos 0) && eq_ℤ r.disk (pos 0)

unfoldable pub valid : Resources → Bool
valid r =
    lt_ℤ (pos 0) r.cpu
    && le_ℤ r.cpu (pos 65536)
    && le_ℤ (pos 512) r.memory
    && le_ℤ r.memory (pos 1073741824)
    && lt_ℤ (pos 0) r.disk
    && le_ℤ r.disk (pos 1073741824)
