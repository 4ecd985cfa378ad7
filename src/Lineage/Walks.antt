-- ===== src/Lineage/Walks.antt =====
-- app/lineage/service.py, traverse_lineage: what the query returns are the walks from the start.
use quant_stock.Base.{
  ℕ, zero, suc, ◌+◌, ◌≡◌, ◌≤◌, ◌<◌, ◌↔◌, ◌⊎◌, inl, inr, refl, ap, sym, ◌∙◌, subst, true, String,
  List, [], ◌∷◌, ◌==◌, ltb, select, In, here, there, In-append, In-append_left, In-append_right,
  In-select, select-In, In-sort, sort-In, Bool-cases, arith,
}
use quant_stock.Base.Result.{ok_or_err, Result, ok, err}
use quant_stock.Lineage.{
  LineageEdge, Direction, direction_of, is_seed, joins, TreeRow, at_depth, next_level, tree_from,
  row_before, traverse_lineage,
}

module _ (dir : Direction) (start_type : String) (start_id : ℕ) (edges : List LineageEdge) where
  -- a walk of so many edges from the start that ends with an edge
  pub data Walk : ℕ → LineageEdge → Type 0 where
    first_edge :
        {n : ℕ} {e : LineageEdge}
        → n ≡ 1
        → In e edges
        → is_seed dir start_type start_id e ≡ true
        → Walk n e
    one_more :
        {d n : ℕ} {e f : LineageEdge}
        → Walk d e
        → n ≡ d + 1
        → In f edges
        → joins dir e f ≡ true
        → Walk n f

  Walk-positive : {n : ℕ} {e : LineageEdge} → Walk n e → 1 ≤ n
  Walk-positive (first_edge one m h) = omega arith
  Walk-positive (one_more w next m h) = omega arith

  In-next_level :
      {f : LineageEdge} (rows : List LineageEdge)
      → In f (next_level dir edges rows)
      → (e : LineageEdge) × In e rows × In f edges × (joins dir e f ≡ true)
  unfolding next_level
  In-next_level [] m = elim m [ ]
  In-next_level (lt ∷ rows) m =
      elim (In-append (select (joins dir lt) edges) (next_level dir edges rows) m) [
        | inl now ↦
            let found = In-select (joins dir lt) edges now in (lt, here refl, found.0, found.1)
        | inr later ↦
            let (e, at, there_in, joined) = In-next_level rows later in
            (e, there at, there_in, joined)
      ]

  next_level-In :
      {e f : LineageEdge} {rows : List LineageEdge}
      → In e rows
      → In f edges
      → joins dir e f ≡ true
      → In f (next_level dir edges rows)
  unfolding next_level
  next_level-In {f = f} (here {x = x} {xs = xs} same) m j =
      In-append_left (next_level dir edges xs)
        (select-In (joins dir x) m (ap (λ q. joins dir q f) (sym same) ∙ j))
  next_level-In (there {x = x} {xs = xs} at) m j =
      In-append_right (select (joins dir x) edges) (next_level-In at m j)

  -- the rows are the ends of the walks of one length
  abbrev IsLevel : ℕ → List LineageEdge → Type 0
  IsLevel d rows = (f : LineageEdge) → In f rows ↔ Walk d f

  seeds-IsLevel : IsLevel 1 (select (is_seed dir start_type start_id) edges)
  seeds-IsLevel f = (found, kept)
    where
      found : In f (select (is_seed dir start_type start_id) edges) → Walk 1 f
      found m =
          let (at, seed) = In-select (is_seed dir start_type start_id) edges m in
          first_edge refl at seed

      kept : Walk 1 f → In f (select (is_seed dir start_type start_id) edges)
      kept (first_edge one m h) = select-In (is_seed dir start_type start_id) m h
      kept (one_more w next m h) =
          let long = Walk-positive w in let absurd : ⊥ = omega arith in elim absurd [ ]

  next_level-IsLevel :
      (d : ℕ) (rows : List LineageEdge)
      → 1 ≤ d
      → IsLevel d rows
      → IsLevel (d + 1) (next_level dir edges rows)
  next_level-IsLevel d rows long level f = (found, kept)
    where
      found : In f (next_level dir edges rows) → Walk (d + 1) f
      found m =
          let (e, at, there_in, joined) = In-next_level rows m in
          one_more ((level e).0 at) refl there_in joined

      kept : Walk (d + 1) f → In f (next_level dir edges rows)
      kept (first_edge one m h) = let absurd : ⊥ = omega arith in elim absurd [ ]
      kept (one_more {d = c} {e = e} w next m h) =
          let same : c ≡ d = omega arith in
          next_level-In ((level e).1 (subst (λ (k : ℕ). Walk k e) same w)) m h

In-at_depth :
    {r : TreeRow} (d : ℕ) (es : List LineageEdge)
    → In r (at_depth d es)
    → In r.edge es × (r.depth ≡ d)
In-at_depth d [] m = elim m [ ]
In-at_depth d (e ∷ es) (here same) =
    (here (ap (λ (q : TreeRow). q.edge) same), ap (λ (q : TreeRow). q.depth) same)
In-at_depth d (e ∷ es) (there m) = let rest = In-at_depth d es m in (there rest.0, rest.1)

at_depth-In :
    {e : LineageEdge} (d : ℕ) {es : List LineageEdge}
    → In e es
    → In (record { edge = e; depth = d }) (at_depth d es)
at_depth-In d (here same) = here (ap (λ q. record { edge = q; depth = d }) same)
at_depth-In d (there m) = there (at_depth-In d m)

module _ (dir : Direction) (start_type : String) (start_id : ℕ) (edges : List LineageEdge) where
  abbrev Tree : ℕ → ℕ → TreeRow → Type 0
  Tree d end r = Walk dir start_type start_id edges r.depth r.edge × (d ≤ r.depth) × (r.depth < end)

  In-tree_from :
      (levels d : ℕ) (rows : List LineageEdge) {r : TreeRow}
      → 1 ≤ d
      → IsLevel dir start_type start_id edges d rows
      → In r (tree_from levels dir edges d rows)
      → Tree d (d + levels) r
  unfolding tree_from
  In-tree_from zero d rows long level m = elim m [ ]
  In-tree_from (suc levels) d rows {r = r} long level m =
      let rest =
        In-tree_from levels (d + 1) (next_level dir edges rows) {r = r} (omega arith)
          (next_level-IsLevel dir start_type start_id edges d rows long level) in
      elim (In-append (at_depth d rows)
        (tree_from levels dir edges (d + 1) (next_level dir edges rows)) m) [
          | inl now ↦
              let (at, same) = In-at_depth d rows now in
              (
                subst (λ (k : ℕ). Walk dir start_type start_id edges k r.edge) (sym same)
                    ((level r.edge).0 at),
                omega arith,
                omega arith,
              )
          | inr later ↦ let (w, low, high) = rest later in (w, omega arith, omega arith)
        ]

  tree_from-In :
      (levels d : ℕ) (rows : List LineageEdge) {r : TreeRow}
      → 1 ≤ d
      → IsLevel dir start_type start_id edges d rows
      → Tree d (d + levels) r
      → In r (tree_from levels dir edges d rows)
  unfolding tree_from
  tree_from-In zero d rows long level (w, low, high) =
      let absurd : ⊥ = omega arith in elim absurd [ ]
  tree_from-In (suc levels) d rows {r = r} long level (w, low, high) =
      let rest =
        tree_from-In levels (d + 1) (next_level dir edges rows) {r = r} (omega arith)
          (next_level-IsLevel dir start_type start_id edges d rows long level) in
      elim (Bool-cases (r.depth == d)) [
        | inl now ↦
            let same : r.depth ≡ d = ground arith in
            In-append_left _ (
              subst (λ (k : ℕ). In (record { edge = r.edge; depth = k }) (at_depth d rows))
                (sym same)
                (at_depth-In d (
                  (level r.edge).1
                    (subst (λ (k : ℕ). Walk dir start_type start_id edges k r.edge) same w))))
        | inr later ↦ In-append_right (at_depth d rows) (rest (w, ground arith, omega arith))
      ]

-- what a traversal answers, from a start in a direction
abbrev pub TraverseOutcome :
    String → ℕ → String → ℕ → List LineageEdge → Result (List TreeRow) → Type 0
TraverseOutcome start_type start_id direction max_depth edges (ok rows) =
    (dir : Direction) × (direction_of direction ≡ ok dir)
    × ((r : TreeRow)
        → In r rows ↔ (Walk dir start_type start_id edges r.depth r.edge × (r.depth ≤ max_depth)))
TraverseOutcome start_type start_id direction max_depth edges (err e) =
    (max_depth ≡ 0) ⊎ (direction_of direction ≡ err e)

-- A traversal returns an edge at a depth exactly if a walk of as many edges, at most max_depth, leads from the
-- start over the edge, against the edges where it goes upstream; it raises only for a direction that is neither
-- of the two and for the depth 0.
pub traverse_lineage_exact :
    (start_type : String) (start_id : ℕ) (direction : String) (max_depth : ℕ)
    (edges : List LineageEdge)
    → TraverseOutcome start_type start_id direction max_depth edges
        (traverse_lineage start_type start_id direction max_depth edges)
unfolding traverse_lineage
traverse_lineage_exact start_type start_id direction max_depth edges =
    elim (ok_or_err (direction_of direction)) [
      | inr (e, neither) ↦ rw neither (inr neither)
      | inl (dir, known) ↦ elim (Bool-cases (ltb max_depth 1)) [
        | inl nothing ↦ rw (known, nothing) (inl (ground arith))
        | inr some_depth ↦
            let seeds = select (is_seed dir start_type start_id) edges in
            let level = seeds-IsLevel dir start_type start_id edges in
            rw (known, some_depth)
              (
                dir,
                known,
                λ r. (
                  (λ m.
                      let (w, low, high) =
                        In-tree_from dir start_type start_id edges max_depth 1 seeds (omega arith)
                          level (In-sort row_before _ m) in
                      (w, omega arith)),
                  (λ p. sort-In row_before (
                      tree_from-In dir start_type start_id edges max_depth 1 seeds (omega arith)
                        level
                        (
                          p.0,
                          Walk-positive dir start_type start_id edges p.0,
                          let high = p.1 in omega arith,
                        ))),
                ),
              )
      ]
    ]
