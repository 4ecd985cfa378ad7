-- ===== src/Datasource/Capability/Examples.antt =====
-- A probe that the provider refuses, and the claims after it.
use quant_stock.Base.{◌≡◌, refl, false, [], ◌∷◌, first}
use quant_stock.Base.Json.{empty, get}
use quant_stock.Collect.StateMachine.{TaskStatus}
use quant_stock.Collect.Repository.{claim_next_slice, is_stage_value, capability_blocks}
use quant_stock.Collect.Samples.{task, binding, queue, unlocked}
use quant_stock.Collect.Executor.{Response, refused}
use quant_stock.Ops.Claims.{claims}
use quant_stock.Datasource.Errors.{classify_provider_exception, any_in}
use quant_stock.Datasource.Capability.{ProbeSpec, settle_probe, probe_status}
use quant_stock.Datasource.Capability.Stops.{probe_stops_claims}

abbrev daily_probe : ProbeSpec
daily_probe = record { params = empty; fields = "ts_code" ∷ [] }

abbrev denied : Response
denied =
    refused
      (record { error_type = "PERMISSION_DENIED"; message = "not allowed"; retryable = false })

is_denied :
    (classify_provider_exception "Not allowed" "not allowed" "exception").error_type
    ≡ "PERMISSION_DENIED"
unfolding classify_provider_exception any_in
is_denied = refl

probe_stops_claims_example :
    claims 7
      (claim_next_slice 5000 42 unlocked "w2" 60
        (settle_probe 1 binding daily_probe denied queue).1).0
    ≡ false
unfolding first get is_stage_value capability_blocks settle_probe probe_status
probe_stops_claims_example =
    probe_stops_claims 1 binding daily_probe denied queue 7 (task TaskStatus.pending) refl refl refl
      refl refl 5000 42 unlocked "w2" 60
