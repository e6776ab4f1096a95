-- ===== src/Ed25519/Loops.antt =====
-- The loop of `_scalarmult` as a relation, and that the fuel is enough for it.
use lustro_node_agent.Base.{
  ℕ, zero, suc, ◌/◌, ◌%◌, ◌≤◌, ◌<◌, ◌≡◌, false, arith, ◌==◌, if◌then◌else◌,
}
use lustro_node_agent.Ed25519.{Point, identity, edwards, scalar_steps, scalarmult}

-- The value of `q` after one round
abbrev pub stepped : Point → Point → ℕ → Point
stepped q point e = if e % 2 == 1 then edwards q point else q

-- From `q`, `point` and `e` the loop ends with `r` in `q`.
pub data Loops : Point → Point → ℕ → Point → Type 0 where
  done : {q point : Point} → Loops q point 0 q
  round :
      {q point r : Point} {e : ℕ}
      → 0 < e
      → Loops (stepped q point e) (edwards point point) (e / 2) r
      → Loops q point e r

scalar_steps-Loops :
    (fuel : ℕ) (q point : Point) (e : ℕ) → e ≤ fuel → Loops q point e (scalar_steps fuel q point e)
unfolding scalar_steps
scalar_steps-Loops zero q point zero small = done
scalar_steps-Loops zero q point (suc e) small = absurd (omega (arith, small))
scalar_steps-Loops (suc fuel) q point zero small = done
scalar_steps-Loops (suc fuel) q point (suc e) small =
    let nonzero : (suc e == 0) ≡ false = ground arith in
    rw (nonzero, scalar_steps)
      (round (omega arith) (
        scalar_steps-Loops fuel (stepped q point (suc e)) (edwards point point) (suc e / 2)
          (omega (arith, small))))

-- The loop ends for every scalar, and `_scalarmult` returns the `q` that it leaves.
pub scalarmult-Loops : (point : Point) (e : ℕ) → Loops identity point e (scalarmult point e)
unfolding scalarmult
scalarmult-Loops point e = scalar_steps-Loops e identity point e (omega arith)
