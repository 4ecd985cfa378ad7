-- ===== src/Collect/Idempotency/Canonical.antt =====
-- app/collect/idempotency.py: the order in which a dict was built does not show in its hash.
use quant_stock.Base.{◌≡◌, ◌≢◌, refl, sym, ap, ◌∙◌, inl, inr, true, String, arith}
use quant_stock.Base.Json.{Json, Dict, empty, entry}
use quant_stock.Base.TextOrder.{text_before, text_before_asym, text_before_trans, text_before_total}
use quant_stock.Collect.Idempotency.{place_entry, normalize, normalize_entries, build_request_hash}

-- the same entries, set in another order; a key stands once
pub data Reordered : Dict → Dict → Type 0 where
  kept : (d : Dict) → Reordered d d
  swapped :
      (j k : String) (v w : Json) (d : Dict)
      → j ≢ k
      → Reordered (entry j v (entry k w d)) (entry k w (entry j v d))
  below :
      (k : String) (v : Json) {d e : Dict} → Reordered d e → Reordered (entry k v d) (entry k v e)
  after : {d e f : Dict} → Reordered d e → Reordered e f → Reordered d f

place_comm_lt :
    (j k : String) (v w : Json) (d : Dict)
    → text_before j k ≡ true
    → place_entry j v (place_entry k w d) ≡ place_entry k w (place_entry j v d)
unfolding place_entry
place_comm_lt j k v w empty h = rw (h, text_before_asym j k h)
place_comm_lt j k v w (entry i u d) h =
    ground (arith, text_before_asym j k h, text_before_trans i j k, place_comm_lt j k v w d h)

place_comm :
    (j k : String) (v w : Json) (d : Dict)
    → j ≢ k
    → place_entry j v (place_entry k w d) ≡ place_entry k w (place_entry j v d)
place_comm j k v w d ne = elim (text_before_total j k ne) [
  | inl less ↦ place_comm_lt j k v w d less
  | inr more ↦ sym (place_comm_lt k j w v d more)
]

normalize-Reordered : {d e : Dict} → Reordered d e → normalize_entries d ≡ normalize_entries e
unfolding normalize_entries
normalize-Reordered (kept d) = refl
normalize-Reordered (swapped j k v w d ne) =
    place_comm j k (normalize v) (normalize w) (normalize_entries d) ne
normalize-Reordered (below k v r) = ap (place_entry k (normalize v)) (normalize-Reordered r)
normalize-Reordered (after r q) = normalize-Reordered r ∙ normalize-Reordered q

-- A request hash does not depend on the order in which the parameters of the request were set.
pub build_request_hash-Reordered :
    (digest : Json → String) (source_binding api_name mapping_version : String) {d e : Dict}
    → Reordered d e
    → build_request_hash digest source_binding api_name d mapping_version
      ≡ build_request_hash digest source_binding api_name e mapping_version
unfolding build_request_hash normalize
build_request_hash-Reordered digest source_binding api_name mapping_version r =
    rw (normalize-Reordered r)
