-- ===== src/Tests/Traffic.antt =====
-- A flow of an old release, which wrote every byte twice, with a limit of 1 MiB.
use nps.Prelude.{◌+◌, ◌*◌, ◌^◌, ◌≡◌, none, List, [], ◌∷◌, false, ◌&&◌, ltb, arith}
use nps.Flow.{Flow, exceeded, normalize_legacy}
use nps.Flow.Limited.{Traffic, adds, exceeded-adds}

abbrev old : Flow
old = record {
  export_flow = 2 ^ 20;
  inlet_flow = 2 ^ 20;
  flow_limit = 1;
  legacy_total = 0;
  accounting_version = 0;
  rate_sample_at = none;
  rate_sample_in = 0;
  rate_sample_out = 0;
  rate_in = 0;
  rate_out = 0;
}

abbrev traffic : List Traffic
traffic = record { inlet = 3; export_bytes = 4; now = 10 } ∷ []

exceeded-adds_example :
    exceeded false (adds (normalize_legacy old).0 traffic)
    ≡ ltb 0 1 && ltb (1 * 2 ^ 20) (2 ^ 20 + (0 + 7))
exceeded-adds_example =
    exceeded-adds false old traffic (omega arith) (omega arith) (omega arith) (omega arith)
