-- ===== src/Tests/Queries.antt =====
-- The query of the durable backend's `ListRuns` for a filter with every field but the batch.
use cronflux.Common.{◌≡◌, [], codes, pos}
use cronflux.Store.{RunFilter}
use cronflux.Store.Memory.{matches}
use cronflux.Store.Postgres.{list_query}
use cronflux.Store.Postgres.Query.{selects, IsWritten, list_query-matches}
use cronflux.Tests.Fixtures.{run_1}

abbrev second_page : RunFilter
second_page = record {
  job_id = codes "a";
  batch_id = [];
  state = codes "pending";
  limit = pos 20;
  offset = pos 20;
}

list_query-matches_example :
    let (q, args) = list_query second_page in
    (selects args run_1 q.conds ≡ matches second_page run_1)
    × IsWritten args (pos 20) q.limit
    × IsWritten args (pos 20) q.offset
list_query-matches_example = list_query-matches second_page run_1
