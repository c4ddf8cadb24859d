-- ===== src/Tests/Scaling.antt =====
-- The NCScale scheme for RS(2, 2), whose batch has 96 stripes.
use stripe_merge.Common.{◌+◌, ◌-◌, ◌*◌, ◌/◌, ◌≡◌, List, ◌++◌, map, range, some, arith, length}
use stripe_merge.Migration.{MigrationInfo}
use stripe_merge.NcScale.{new_ncscale, get_scheme, get_batch_size, get_total_costs}
use stripe_merge.NcScale.Phases.{old_to_new, old_to_old}
use stripe_merge.NcScale.Batch.{per_node}
use stripe_merge.NcScale.Total.{get_scheme_lem, length-get_scheme}

get_scheme_lem_example :
    get_scheme (new_ncscale 2 2) 100
    ≡ some (
        map
          (old_to_new (2 + 2) 2)
          (range 0 ((2 + 2) * (100 / (per_node 2 2 * (2 + 2) * 2) * (2 * per_node 2 2))))
        ++ map
            (old_to_old (2 + 2))
            (range 0 ((2 + 2) * (100 / (per_node 2 2 * (2 + 2) * 2) * ((2 - 1) * per_node 2 2)))))
get_scheme_lem_example =
    get_scheme_lem 2 2 100 (omega arith) (omega arith) (omega arith) (omega arith)

length-get_scheme_example :
    (scheme : List MigrationInfo) × (get_scheme (new_ncscale 2 2) 100 ≡ some scheme)
    × (length scheme ≡ 100 / get_batch_size (new_ncscale 2 2) * get_total_costs (new_ncscale 2 2))
length-get_scheme_example =
    length-get_scheme 2 2 100 (omega arith) (omega arith) (omega arith) (omega arith)
