-- ===== src/Collect/Idempotency.antt =====
-- app/collect/idempotency.py: canonical JSON, the keys and hashes made of it, and the decision on a
-- completed key. `digest` is sha256 over the text that json.dumps makes of a normalized value.
pub mod Canonical
use quant_stock.Base.{ℕ, Bool, true, false, String, Option, none, some, if◌then◌else◌}
use quant_stock.Base.Json.{
  Json, null, flag, num, str, array, object, Items, nil, cons, Dict, empty, entry,
}
use quant_stock.Base.TextOrder.{text_before}

-- an entry goes before the first whose key comes later
unfoldable pub place_entry : String → Json → Dict → Dict
place_entry k v empty = entry k v empty
place_entry k v (entry j w d) =
    let rest = place_entry k v d in
    if text_before j k then entry j w rest else entry k v (entry j w d)

-- _normalize: the entries of every dict by key, in texts' order. A date stands in the model as the
-- text of its isoformat.
unfoldable mutual
  unfolding place_entry

  pub normalize : Json → Json
  normalize null = null
  normalize (flag b) = flag b
  normalize (num n) = num n
  normalize (str s) = str s
  normalize (array vs) = array (normalize_items vs)
  normalize (object d) = object (normalize_entries d)

  pub normalize_items : Items → Items
  normalize_items nil = nil
  normalize_items (cons v vs) = cons (normalize v) (normalize_items vs)

  pub normalize_entries : Dict → Dict
  normalize_entries empty = empty
  normalize_entries (entry k v d) = place_entry k (normalize v) (normalize_entries d)

abbrev pub of_option : Option String → Json
of_option none = null
of_option (some s) = str s

module _ (digest : Json → String) where
  -- sha256_text(canonical_json(value))
  unfoldable pub content_key : Json → String
  content_key value = digest (normalize value)

  unfoldable pub build_task_idempotency_key :
      String → String → String → Dict → Option String → Option String → Option String → String
  unfolding content_key
  build_task_idempotency_key data_item source_binding run_type object_scope time_start time_end
        frequency =
      content_key (
        object (
          entry "data_item" (str data_item) (
            entry "source_binding" (str source_binding) (
              entry "run_type" (str run_type) (
                entry "object_scope" (object object_scope) (
                  entry "time_start" (of_option time_start) (
                    entry "time_end" (of_option time_end)
                      (entry "frequency" (of_option frequency) empty))))))))

  unfoldable pub build_request_hash : String → String → Dict → String → String
  unfolding content_key
  build_request_hash source_binding api_name request_params mapping_version = content_key (
      object (
        entry "source_binding" (str source_binding) (
          entry "api_name" (str api_name) (
            entry "request_params" (object request_params)
              (entry "mapping_version" (str mapping_version) empty)))))

-- what check_idempotency_or_force answers, or the exception that it raises
pub data Decision : Type 0 where
  proceed : Decision
  new_run : Option String → Decision
  force_rerun_required : Option String → Decision

unfoldable pub check_idempotency_or_force : Bool → Bool → Option String → Decision
check_idempotency_or_force existing_completed force_rerun key =
    if existing_completed
    then (if force_rerun then new_run key else force_rerun_required key)
    else proceed
