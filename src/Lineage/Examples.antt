-- ===== src/Lineage/Examples.antt =====
-- The traversal of a chain of two edges.
use quant_stock.Base.{ℕ, ◌≡◌, refl, none, List, [], ◌∷◌, map, select, sort, place}
use quant_stock.Base.Result.{Result, ok, err}
use quant_stock.Lineage.{
  LineageEdge, TreeRow, write_edge, traverse_lineage, direction_of, is_seed, joins, next_level,
  tree_from, row_before,
}
use quant_stock.Lineage.Walks.{TraverseOutcome, traverse_lineage_exact}

-- a raw batch 1 is cleaned into 2, which a quality run 3 checks
abbrev chain : List LineageEdge
chain =
    let cleaned =
      (write_edge 10 100 "raw_batch" 1 "clean_batch" 2 "DERIVED_FROM" 7 none none []).1 in
    (write_edge 11 200 "clean_batch" 2 "quality_run" 3 "QUALIFIED_BY" 7 none none cleaned).1

depths : Result (List TreeRow) → List ℕ
depths (ok rows) = map (λ (r : TreeRow). r.depth) rows
depths (err e) = []

traverse_two : depths (traverse_lineage "raw_batch" 1 "downstream" 3 chain) ≡ 1 ∷ 2 ∷ []
unfolding traverse_lineage direction_of is_seed joins next_level tree_from row_before select sort
    write_edge depths place
traverse_two = refl

traverse_lineage_exact_example :
    TraverseOutcome "raw_batch" 1 "downstream" 3 chain
      (traverse_lineage "raw_batch" 1 "downstream" 3 chain)
traverse_lineage_exact_example = traverse_lineage_exact "raw_batch" 1 "downstream" 3 chain
