-- ===== src/Flow/Limited.antt =====
-- Flow of lib/file/obj.go: what Exceeded answers after a migration and any traffic.
use nps.Prelude.{
  ℕ, ◌+◌, ◌-◌, ◌*◌, ◌^◌, ◌≡◌, ◌<◌, ◌≤◌, refl, Option, none, some, List, [], ◌∷◌, Bool, true, false,
  ◌&&◌, ltb, leb, if◌then◌else◌, arith, Bool-cases, inl, inr,
}
use nps.Flow.{
  Flow, interval, twice, add64, less64, shift20, directional, larger, folded, normalize_legacy,
  sampled, add, usage, exceeded,
}

-- One call of Add
pub record Traffic : Type 0 where
  pub inlet : ℕ
  pub export_bytes : ℕ
  pub now : ℕ

pub adds : Flow → List Traffic → Flow
adds f [] = f
adds f (t ∷ ts) = adds (add t.inlet t.export_bytes t.now f) ts

abbrev pub bytes : List Traffic → ℕ
bytes [] = 0
bytes (t ∷ ts) = t.inlet + t.export_bytes + bytes ts

-- What the counters of a Flow stand for: traffic in both directions, and traffic of releases that
-- wrote every byte to both counters.
abbrev pub is_directional : Flow → Bool
is_directional f = leb directional f.accounting_version

abbrev pub old_bytes : Flow → ℕ
old_bytes f =
    f.legacy_total
    + (if is_directional f
        then 0
        else if ltb f.inlet_flow f.export_flow
        then f.export_flow
        else f.inlet_flow)

abbrev pub new_bytes : Flow → ℕ
new_bytes f = if is_directional f then f.inlet_flow + f.export_flow else 0

-- The counters hold so many old bytes and so many others, and the limit.
record Holds (old new limit : ℕ) (f : Flow) : Type 0 where
  old_held : f.legacy_total ≡ old
  new_held : f.inlet_flow + f.export_flow ≡ new
  limited : f.flow_limit ≡ limit

add64-lt : (a b : ℕ) → a + b < 2 ^ 63 → add64 a b ≡ a + b
unfolding add64
add64-lt a b h = omega arith

twice-lt : (a : ℕ) → 2 * a < 2 ^ 63 → twice a ≡ 2 * a
unfolding twice
twice-lt a h = omega arith

shift20-lt : (a : ℕ) → a < 2 ^ 43 → shift20 a ≡ a * 2 ^ 20
unfolding shift20
shift20-lt a h = omega arith

less64-ltb : (a b : ℕ) → a < 2 ^ 63 → b < 2 ^ 63 → less64 a b ≡ ltb a b
unfolding less64
less64-ltb a b h k = ground arith

larger-ltb : (a b : ℕ) → a < 2 ^ 63 → b < 2 ^ 63 → larger a b ≡ (if ltb a b then b else a)
larger-ltb a b h k = rw (less64-ltb a b h k) refl

folded-Holds :
    (f : Flow) (m : ℕ)
    → larger f.inlet_flow f.export_flow ≡ m
    → (f.inlet_flow ≤ m) × (f.export_flow ≤ m)
    → f.legacy_total + m < 2 ^ 63
    → Holds (f.legacy_total + m) 0 f.flow_limit (folded f)
folded-Holds f m e (a, b) h = elim (Bool-cases (ltb 0 m)) [
  | inl some_bytes ↦
      rw (e, less64-ltb 0 m (omega arith) (omega arith), some_bytes)
        (record { old_held = add64-lt f.legacy_total m h; new_held = omega arith; limited = refl })
  | inr none_left ↦
      rw (e, less64-ltb 0 m (omega arith) (omega arith), none_left)
        (record {
          old_held = ground (arith, none_left);
          new_held = ground (arith, none_left, a, b);
          limited = refl;
        })
]

normalize-Holds :
    (f : Flow)
    → old_bytes f + 2 * new_bytes f < 2 ^ 63
    → f.inlet_flow < 2 ^ 63
    → f.export_flow < 2 ^ 63
    → Holds (old_bytes f) (new_bytes f) f.flow_limit (normalize_legacy f).0
unfolding normalize_legacy
normalize-Holds f h k l = elim (Bool-cases (leb directional f.accounting_version)) [
  | inl new_one ↦ rw new_one (record { old_held = omega arith; new_held = refl; limited = refl })
  | inr old_one ↦ rw old_one (migrated (rw old_one at h))
]
  where
    most : ℕ
    most = if ltb f.inlet_flow f.export_flow then f.export_flow else f.inlet_flow

    migrated :
        f.legacy_total + most + 2 * 0 < 2 ^ 63
        → Holds (f.legacy_total + most) 0 f.flow_limit (record (folded f) {
          accounting_version = directional;
          rate_sample_at = none;
          rate_sample_in = 0;
          rate_sample_out = 0;
          rate_in = 0;
          rate_out = 0;
        })
    migrated bound =
        let c =
          folded-Holds f most (larger-ltb f.inlet_flow f.export_flow k l) (ground arith)
            (omega (arith, bound)) in
        record { old_held = c.old_held; new_held = c.new_held; limited = c.limited }

sampled-Holds :
    (old new limit now : ℕ) (o : Option ℕ) (f : Flow)
    → Holds old new limit f
    → Holds old new limit (sampled now o f)
unfolding sampled
sampled-Holds old new limit now none f h = record {
  old_held = h.old_held;
  new_held = h.new_held;
  limited = h.limited;
}
sampled-Holds old new limit now (some at) f h = elim (Bool-cases (ltb (now - at) interval)) [
  | inl early ↦ rw early h
  | inr due ↦ rw due (record { old_held = h.old_held; new_held = h.new_held; limited = h.limited })
]

add-Holds :
    (old new limit : ℕ) (f : Flow) (t : Traffic)
    → new + t.inlet + t.export_bytes < 2 ^ 63
    → Holds old new limit f
    → Holds old (new + t.inlet + t.export_bytes) limit (add t.inlet t.export_bytes t.now f)
unfolding add
add-Holds old new limit f t h k =
    sampled-Holds old (new + t.inlet + t.export_bytes) limit t.now f.rate_sample_at _ (record {
      old_held = k.old_held;
      new_held =
          omega (
            arith,
            k.new_held,
            add64-lt f.inlet_flow t.inlet,
            add64-lt f.export_flow t.export_bytes,
          );
      limited = k.limited;
    })

adds-Holds :
    (old new limit : ℕ) (f : Flow) (ts : List Traffic)
    → new + bytes ts < 2 ^ 63
    → Holds old new limit f
    → Holds old (new + bytes ts) limit (adds f ts)
unfolding adds
adds-Holds old new limit f [] h k = record {
  old_held = k.old_held;
  new_held = omega (arith, k.new_held);
  limited = k.limited;
}
adds-Holds old new limit f (t ∷ ts) h k =
    let c =
      adds-Holds old (new + t.inlet + t.export_bytes) limit (add t.inlet t.export_bytes t.now f) ts
        (omega arith) (add-Holds old new limit f t (omega arith) k) in
    record { old_held = c.old_held; new_held = omega (arith, c.new_held); limited = c.limited }

usage-Holds :
    (actual : Bool) (old new limit : ℕ) (f : Flow)
    → old + 2 * new < 2 ^ 63
    → Holds old new limit f
    → usage actual f ≡ (if actual then old + 2 * new else old + new)
usage-Holds true old new limit f h k = omega (
  arith,
  k.old_held,
  k.new_held,
  add64-lt f.inlet_flow f.export_flow,
  twice-lt (add64 f.inlet_flow f.export_flow),
  add64-lt f.legacy_total (twice (add64 f.inlet_flow f.export_flow)),
)
usage-Holds false old new limit f h k = omega (
  arith,
  k.old_held,
  k.new_held,
  add64-lt f.legacy_total f.inlet_flow,
  add64-lt (add64 f.legacy_total f.inlet_flow) f.export_flow,
)

exceeded-Holds :
    (actual : Bool) (old new limit : ℕ) (f : Flow)
    → old + 2 * new < 2 ^ 63
    → limit < 2 ^ 43
    → Holds old new limit f
    → exceeded actual f
      ≡ ltb 0 limit && ltb (limit * 2 ^ 20) (if actual then old + 2 * new else old + new)
unfolding exceeded
exceeded-Holds actual old new limit f h k held =
    rw
      (
        held.limited,
        usage-Holds actual old new limit f h held,
        shift20-lt limit k,
        less64-ltb 0 limit (omega arith) (omega arith),
        less64-ltb (limit * 2 ^ 20) (if actual then old + 2 * new else old + new) (omega arith)
            (in_range actual),
      )
      refl
  where
    in_range : (b : Bool) → (if b then old + 2 * new else old + new) < 2 ^ 63
    in_range true = h
    in_range false = omega arith

-- If the limit is below 2 ^ 43 MiB, the two counters are below 2 ^ 63, and the old bytes with
-- twice the others and all new traffic too, then after NormalizeLegacyAccounting and any calls of
-- Add, Exceeded says whether the limit is positive and below the use: the old bytes, which are
-- the legacy total and, for a Flow of an old release, the larger counter, with the others once,
-- or twice if both directions count.
pub exceeded-adds :
    (actual : Bool) (f : Flow) (ts : List Traffic)
    → old_bytes f + 2 * (new_bytes f + bytes ts) < 2 ^ 63
    → f.inlet_flow < 2 ^ 63
    → f.export_flow < 2 ^ 63
    → f.flow_limit < 2 ^ 43
    → exceeded actual (adds (normalize_legacy f).0 ts)
      ≡ ltb 0 f.flow_limit
        && ltb (f.flow_limit * 2 ^ 20) (
            if actual
            then old_bytes f + 2 * (new_bytes f + bytes ts)
            else old_bytes f + (new_bytes f + bytes ts))
exceeded-adds actual f ts h k l m =
    exceeded-Holds actual (old_bytes f) (new_bytes f + bytes ts) f.flow_limit
      (adds (normalize_legacy f).0 ts) h m
      (adds-Holds (old_bytes f) (new_bytes f) f.flow_limit (normalize_legacy f).0 ts
        (omega (arith, h)) (normalize-Holds f (omega (arith, h)) k l))
