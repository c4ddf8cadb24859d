-- ===== src/Migration.antt =====
-- include/migration_info.hh: one block to send.
use Prim.Native.String.{String}
use stripe_merge.Common.{ℕ, ◌%◌, ◌^◌, Option, none}

-- `source` and `target` are `int16_t`: the model holds their 16-bit patterns. `mem_ptr` is a block of
-- memory by its address, `none` for `nullptr`.
pub record MigrationInfo : Type 0 where
  pub index : ℕ
  pub source : ℕ
  pub target : ℕ
  pub mem_ptr : Option ℕ
  pub coefficient : ℕ
  pub target_fn : String
  pub store_fn : String

-- The default constructor, which is also the signal to stop. It sets `source`, `target` and `mem_ptr`; the
-- other members are indeterminate there, and nothing of the model reads them.
unfoldable pub blank_task : MigrationInfo
blank_task = record {
  index = 0;
  source = 0;
  target = 0;
  mem_ptr = none;
  coefficient = 0;
  target_fn = "";
  store_fn = "";
}

-- `MigrationInfo(int16_t s, int16_t t, uint8_t coef)`, with the conversions to 16 and 8 bits.
unfoldable pub migration : ℕ → ℕ → ℕ → MigrationInfo
unfolding blank_task
migration s t coef = record blank_task {
  source = s % 2 ^ 16;
  target = t % 2 ^ 16;
  coefficient = coef % 256;
}
