-- ===== src/Lineage.antt =====
-- app/lineage/service.py: the edges between the objects of the platform, and the walk over them. The recursive
-- query is computed level by level; each level joins the edges with the rows of the level before.
pub mod Walks
mod Examples
use quant_stock.Base.{
  ℕ, zero, suc, ◌+◌, ◌-◌, Bool, true, false, ◌&&◌, ◌||◌, String, Option, none, some, List, [], ◌∷◌,
  ◌++◌, ◌==◌, ltb, str_eq, select, sort, if◌then◌else◌,
}
use quant_stock.Base.Result.{Result, ok, err, value_error, raise_if, ◌>>=◌, ◌>>◌}
use quant_stock.Base.Json.{Dict, empty}

-- app/storage/models/lineage.py, LineageEdge
pub record LineageEdge : Type 0 where
  pub edge_id : ℕ
  pub source_type : String
  pub source_id : ℕ
  pub target_type : String
  pub target_id : ℕ
  pub edge_type : String
  pub scope_key : Option String
  pub metadata : Dict
  pub trace_id : ℕ
  pub created_at : ℕ

-- `metadata or {}`
abbrev metadata_of : Option Dict → Dict
metadata_of none = empty
metadata_of (some d) = d

-- write_edge, with the id that it draws and the instant of the insert
unfoldable pub write_edge :
    ℕ
    → ℕ
    → String
    → ℕ
    → String
    → ℕ
    → String
    → ℕ
    → Option String
    → Option Dict
    → List LineageEdge
    → LineageEdge × List LineageEdge
write_edge edge_id now source_type source_id target_type target_id edge_type trace_id scope_key
      metadata edges =
    let edge : LineageEdge = record {
      edge_id = edge_id;
      source_type = source_type;
      source_id = source_id;
      target_type = target_type;
      target_id = target_id;
      edge_type = edge_type;
      scope_key = scope_key;
      metadata = metadata_of metadata;
      trace_id = trace_id;
      created_at = now;
    } in
    (edge, edges ++ edge ∷ [])

pub data Direction : Type 0 where
  downstream upstream : Direction

unfoldable pub direction_of : String → Result Direction
direction_of s =
    if str_eq s "downstream"
    then ok downstream
    else if str_eq s "upstream"
    then ok upstream
    else err (value_error "direction must be 'downstream' or 'upstream'")

-- seed_pred
unfoldable pub is_seed : Direction → String → ℕ → LineageEdge → Bool
is_seed downstream start_type start_id e =
    str_eq e.source_type start_type && e.source_id == start_id
is_seed upstream start_type start_id e = str_eq e.target_type start_type && e.target_id == start_id

-- join_clause, of an edge and a row of the tree
unfoldable pub joins : Direction → LineageEdge → LineageEdge → Bool
joins downstream lt e = e.source_id == lt.target_id && str_eq e.source_type lt.target_type
joins upstream lt e = e.target_id == lt.source_id && str_eq e.target_type lt.source_type

-- a row of lineage_tree
pub record TreeRow : Type 0 where
  pub edge : LineageEdge
  pub depth : ℕ

abbrev pub at_depth : ℕ → List LineageEdge → List TreeRow
at_depth d [] = []
at_depth d (e ∷ es) = record { edge = e; depth = d } ∷ at_depth d es

-- the rows that the recursive term makes of the rows of one level
unfoldable pub next_level : Direction → List LineageEdge → List LineageEdge → List LineageEdge
next_level dir edges [] = []
next_level dir edges (lt ∷ rows) = select (joins dir lt) edges ++ next_level dir edges rows

-- WITH RECURSIVE: the rows of a level and of the levels after it, while lt.depth < :max_depth
unfoldable pub tree_from : ℕ → Direction → List LineageEdge → ℕ → List LineageEdge → List TreeRow
tree_from zero dir edges depth rows = []
tree_from (suc levels) dir edges depth rows =
    at_depth depth rows ++ tree_from levels dir edges (depth + 1) (next_level dir edges rows)

-- ORDER BY depth ASC, created_at ASC
unfoldable pub row_before : TreeRow → TreeRow → Bool
row_before a b =
    ltb a.depth b.depth || a.depth == b.depth && ltb a.edge.created_at b.edge.created_at

unfoldable pub traverse_lineage : String → ℕ → String → ℕ → List LineageEdge → Result (List TreeRow)
traverse_lineage start_type start_id direction max_depth edges = do
  dir ← direction_of direction
  raise_if (ltb max_depth 1) (value_error "max_depth must be >= 1")
  ok (
      sort row_before
        (tree_from max_depth dir edges 1 (select (is_seed dir start_type start_id) edges)))
