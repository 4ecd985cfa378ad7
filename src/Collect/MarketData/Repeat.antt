-- ===== src/Collect/MarketData/Repeat.antt =====
-- app/collect/market_data_service.py: a function called again on the database that its first call left.
use Prim.Native.String.{◌++◌ as text_append}
use quant_stock.Base.{
  str_eq, first, ◌≡◌, refl, ap, inl, inr, ℕ, Bool, true, false, String, Option, none, some,
  Bool-cases,
}
use quant_stock.Base.Result.{ok_or_err, ok}
use quant_stock.Base.Json.{Json}
use quant_stock.Collect.Model.{CollectTask, DataItem, SourceBinding, TaskDefinition, Store}
use quant_stock.Collect.Creation.{text_or, version_or}
use quant_stock.Collect.Creation.Once.{Catalog, catalog_of, submit-catalog_of, submit_once}
use quant_stock.Collect.MarketData.{
  Draws, is_trade_date_item, catalog, with_definition, trade_date_task, trade_date_slices,
  enqueue_trade_date_item,
}

catalog_congr :
    (db db' : Store) (code : String)
    → catalog_of db' ≡ catalog_of db
    → catalog db' code ≡ catalog db code
unfolding catalog
catalog_congr db db' code e =
    let items = ap (λ (c : Catalog). c.0) e in
    let bindings = ap (λ (c : Catalog). c.1) e in rw (items, bindings) refl

with_definition_key :
    (b : Bool) (d : Option TaskDefinition) (t : CollectTask)
    → (with_definition b d t).idempotency_key ≡ t.idempotency_key
with_definition_key false d t = refl
with_definition_key true none t = refl
with_definition_key true (some d) t = refl

with_definition_version :
    (b : Bool) (d : Option TaskDefinition) (t : CollectTask)
    → (with_definition b d t).idempotency_version ≡ t.idempotency_version
with_definition_version false d t = refl
with_definition_version true none t = refl
with_definition_version true (some d) t = refl

abbrev SameKey : CollectTask → CollectTask → Type 0
SameKey t u =
    (version_or u.idempotency_version ≡ version_or t.idempotency_version)
    × (u.idempotency_key ≡ t.idempotency_key)

-- the key of the task does not depend on who asks, why, or on the definition
same_task :
    (digest : Json → String) (draws again : Draws) (item : DataItem) (binding : SourceBinding)
    (definition other : Option TaskDefinition) (trade_date : ℕ)
    (run_type requested_by asked_by reason for : String)
    → SameKey
        (trade_date_task digest draws item binding definition trade_date run_type requested_by
          reason)
        (trade_date_task digest again item binding other trade_date run_type asked_by for)
unfolding trade_date_task
same_task digest draws again item binding definition other trade_date run_type requested_by asked_by
      reason for =
    let key = with_definition_key (str_eq run_type "INCREMENTAL") in
    let version = with_definition_version (str_eq run_type "INCREMENTAL") in
    (rw (version definition, version other) refl, rw (key definition, key other) refl)

-- Once a call has enqueued an item for a trade date, or found its task there, a call for the same item, date and
-- run type on the database that it left answers a task that is there, with False, and leaves that database as it
-- is, whatever it draws and whoever asks for it.
pub enqueue_trade_date_again :
    (digest : Json → String) (draws again : Draws) (item_code : String) (trade_date : ℕ)
    (run_type requested_by asked_by : String) (reason for : Option String) (db : Store)
    {t : CollectTask} {c : Bool} {db' : Store}
    → enqueue_trade_date_item digest draws item_code trade_date run_type requested_by reason db
      ≡ ok (t, c, db')
    → (u : CollectTask) × (enqueue_trade_date_item digest again item_code trade_date run_type
          asked_by for db'
        ≡ ok (u, false, db'))
unfolding enqueue_trade_date_item
enqueue_trade_date_again digest draws again item_code trade_date run_type requested_by asked_by
      reason for db {db' = db'} e =
    elim (Bool-cases (is_trade_date_item item_code)) [
      | inr unknown ↦ let e' = rw unknown at e in cc
      | inl known ↦ elim (ok_or_err (catalog db item_code)) [
        | inr (raised, refused) ↦ let e' = rw (known, refused) at e in cc
        | inl (found, there) ↦
            let defined : Store → Option TaskDefinition = λ d.
              first (λ x. str_eq x.task_code (text_append item_code "_incremental"))
                d.definitions in
            let why : Option String → String =
              λ r. text_or r (text_append item_code " collection") in
            let t =
              trade_date_task digest draws found.0 found.1 (defined db) trade_date run_type
                requested_by (why reason) in
            let u =
              trade_date_task digest again found.0 found.1 (defined db') trade_date run_type
                asked_by (why for) in
            let plan = trade_date_slices digest draws found.0 found.1 trade_date in
            let replan = trade_date_slices digest again found.0 found.1 trade_date in
            let e' = rw (known, there) at e in
            let same = catalog_congr db db' item_code (submit-catalog_of t plan db e') in
            let alike =
              same_task digest draws again found.0 found.1 (defined db) (defined db') trade_date
                run_type requested_by asked_by (why reason) (why for) in
            rw (known, same, there) (submit_once t u plan replan db e' alike.0 alike.1)
      ]
    ]
