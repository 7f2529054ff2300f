-- ===== src/Flow.antt =====
-- Flow of lib/file/obj.go: the traffic of a client, its limit in MiB, and samples of its rates. An
-- int64 is a word below 2 ^ 64 in two's complement; a time is a number of nanoseconds, and the zero
-- Time is none.
pub mod Limited
use nps.Prelude.{
  ℕ, ◌+◌, ◌-◌, ◌*◌, ◌/◌, ◌%◌, ◌^◌, Option, none, some, List, [], ◌∷◌, Bool, true, false, ◌&&◌, ◌||◌,
  not, ltb, leb, if◌then◌else◌,
}
use nps.Text.{Text, codes, same, to_lower, trim_space}

unfoldable pub add64 : ℕ → ℕ → ℕ
add64 a b = (a + b) % 2 ^ 64

unfoldable pub sub64 : ℕ → ℕ → ℕ
sub64 a b = (a + 2 ^ 64 - b) % 2 ^ 64

-- a << 20 and 2 * a
unfoldable pub shift20 : ℕ → ℕ
shift20 a = a * 2 ^ 20 % 2 ^ 64

unfoldable pub twice : ℕ → ℕ
twice a = 2 * a % 2 ^ 64

-- a < b as signed integers
unfoldable pub less64 : ℕ → ℕ → Bool
less64 a b = ltb ((a + 2 ^ 63) % 2 ^ 64) ((b + 2 ^ 63) % 2 ^ 64)

pub record Flow : Type 0 where
  pub export_flow : ℕ
  pub inlet_flow : ℕ
  pub flow_limit : ℕ
  pub legacy_total : ℕ
  pub accounting_version : ℕ
  pub rate_sample_at : Option ℕ
  pub rate_sample_in : ℕ
  pub rate_sample_out : ℕ
  pub rate_in : ℕ
  pub rate_out : ℕ

-- directionalFlowAccountingVersion
abbrev pub directional : ℕ
directional = 2

-- SetFlowLimitType and FlowLimitType: whether both directions count
unfoldable pub flow_limit_actual : Text → Bool
flow_limit_actual value = same (to_lower (trim_space value)) (codes "actual")

unfoldable pub flow_limit_type : Bool → Text
flow_limit_type actual = if actual then codes "actual" else codes "total"

-- NewFlow
unfoldable pub new_flow : Flow
new_flow = record {
  export_flow = 0;
  inlet_flow = 0;
  flow_limit = 0;
  legacy_total = 0;
  accounting_version = directional;
  rate_sample_at = none;
  rate_sample_in = 0;
  rate_sample_out = 0;
  rate_in = 0;
  rate_out = 0;
}

abbrev pub larger : ℕ → ℕ → ℕ
larger a b = if less64 a b then b else a

abbrev pub folded : Flow → Flow
folded f =
    let legacy = larger f.inlet_flow f.export_flow in
    if less64 0 legacy
    then record f { legacy_total = add64 f.legacy_total legacy; inlet_flow = 0; export_flow = 0 }
    else f

-- NormalizeLegacyAccounting
unfoldable pub normalize_legacy : Flow → Flow × Bool
normalize_legacy f = if leb directional f.accounting_version then (f, false) else (
  record (folded f) {
    accounting_version = directional;
    rate_sample_at = none;
    rate_sample_in = 0;
    rate_sample_out = 0;
    rate_in = 0;
    rate_out = 0;
  },
  true,
)

-- Total and LegacySnapshot
unfoldable pub total : Flow → ℕ
total f = add64 (add64 f.legacy_total f.inlet_flow) f.export_flow

unfoldable pub legacy_snapshot : Flow → ℕ
legacy_snapshot f = f.legacy_total

-- flowRateSampleInterval
abbrev pub interval : ℕ
interval = 10 ^ 9

abbrev pub at_least_zero : ℕ → ℕ
at_least_zero a = if less64 a 0 then 0 else a

abbrev pub started : ℕ → Flow → Flow
started now f = record f {
  rate_sample_at = some now;
  rate_sample_in = f.inlet_flow;
  rate_sample_out = f.export_flow;
}

-- The part of Add that samples the rates, whose quotient is taken without rounding to a float
unfoldable pub sampled : ℕ → Option ℕ → Flow → Flow
sampled now none f = started now f
sampled now (some at) f = if ltb (now - at) interval then f else record (started now f) {
  rate_in = at_least_zero (sub64 f.inlet_flow f.rate_sample_in) * 10 ^ 9 / (now - at);
  rate_out = at_least_zero (sub64 f.export_flow f.rate_sample_out) * 10 ^ 9 / (now - at);
}

-- Add
unfoldable pub add : ℕ → ℕ → ℕ → Flow → Flow
unfolding sampled
add inlet export now f = sampled now f.rate_sample_at (record f {
  accounting_version = if leb f.accounting_version 0 then directional else f.accounting_version;
  inlet_flow = add64 f.inlet_flow inlet;
  export_flow = add64 f.export_flow export;
})

-- Snapshot, RateSnapshot and SetLimit
unfoldable pub snapshot : Flow → ℕ × ℕ × ℕ
snapshot f = (f.inlet_flow, f.export_flow, f.flow_limit)

abbrev pub is_stale : ℕ → Option ℕ → Bool
is_stale now none = true
is_stale now (some at) = ltb (2 * interval) (now - at)

unfoldable pub rate_snapshot : ℕ → Flow → ℕ × ℕ
rate_snapshot now f = if is_stale now f.rate_sample_at then (0, 0) else (f.rate_in, f.rate_out)

unfoldable pub set_limit : ℕ → Flow → Flow
set_limit limit f = record f { flow_limit = limit }

-- Exceeded
abbrev pub usage : Bool → Flow → ℕ
usage actual f =
    if actual
    then add64 f.legacy_total (twice (add64 f.inlet_flow f.export_flow))
    else add64 (add64 f.legacy_total f.inlet_flow) f.export_flow

unfoldable pub exceeded : Bool → Flow → Bool
exceeded actual f = less64 0 f.flow_limit && less64 (shift20 f.flow_limit) (usage actual f)
