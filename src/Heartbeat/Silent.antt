-- ===== src/Heartbeat/Silent.antt =====
-- src/core/Heartbeat.ts: a socket that does not answer, over the runs of the timer.
use live_r.Base.{
  ℕ, ◌+◌, ◌≤◌, ◌<◌, ◌≡◌, ◌∙◌, ap, ◌&&◌, arith, ltb, to_nat, Bool, leb, Bool-cases, inl, inr, leb→le,
  suc, zero, if◌then◌else◌,
}
use live_r.Types.{Ws, Heap, ends_of}
use live_r.Connections.{ConnectionManager}
use live_r.Connections.Invariant.{IsIndexed, registered}
use live_r.Heartbeat.{tick}
use live_r.Heartbeat.Tick.{tick_outcome}

-- The first of the runs from the `k`th on that comes after the time `t`, looked for among `n` of
-- them. Run `k` comes at the time `at k`.
abbrev pub first_past : (ℕ → ℕ) → ℕ → ℕ → ℕ → ℕ
first_past runs t k zero = k
first_past runs t k (suc n) =
    let later = first_past runs t (k + 1) n in if ltb t (runs k) then k else later

-- The run that ends a socket which was heard of at the time `t` last. Since the runs come one after
-- the other, it is among the first `t + interval + timeout + 1`.
abbrev pub last_run : (ℕ → ℕ) → ℕ → ℕ → ℕ → ℕ
last_run runs interval timeout t =
    let over = t + (interval + timeout) in first_past runs over 0 (over + 1)

-- The runs come one after the other.
module _ (runs : ℕ → ℕ) (later : (k : ℕ) → runs k < runs (suc k)) where
  not_before : (k : ℕ) → k ≤ runs k
  not_before zero = omega arith
  not_before (suc k) = omega (arith, later k, not_before k)

  rises : (a b : ℕ) → a ≤ b → runs a ≤ runs b
  rises a zero le = ground (arith, le, ap runs {x = a} {y = 0})
  rises a (suc b) le = elim (Bool-cases (leb a b)) [
    | inl within ↦ omega (arith, later b, rises a b (leb→le a b within))
    | inr beyond ↦ ground (arith, le, beyond, ap runs {x = a} {y = suc b})
  ]

  found :
      (t k n : ℕ)
      → t < runs (k + n)
      → let f = first_past runs t k n in (t < runs f) × ((j : ℕ) → k ≤ j → j < f → runs j ≤ t)
  found t k zero past = (
    ground (arith, past, ap runs {x = k + 0} {y = k}),
    λ j from below. absurd (omega (arith, from, below)),
  )
  found t k (suc n) past =
      let next : t < runs (k + 1 + n) =
        ground (arith, past, ap runs {x = k + suc n} {y = k + 1 + n}) in
      let rest = found t (k + 1) n next in
      elim (Bool-cases (ltb t (runs k))) [
        | inl yet ↦
            rw yet (ground (arith, yet), λ j from below. absurd (omega (arith, from, below)))
        | inr not_yet ↦ rw not_yet (
          rest.0,
          λ j from below. elim (Bool-cases (leb (k + 1) j)) [
            | inl behind ↦ rest.1 j (leb→le (k + 1) j behind) below
            | inr here ↦ ground (arith, not_yet, from, here, ap runs {x = j} {y = k})
          ],
        )
      ]

  module _ (interval timeout late t : ℕ)
      (soon : (k : ℕ) → runs (suc k) ≤ runs k + (interval + late))
      (early : runs 0 ≤ t + (interval + timeout) + (interval + late)) where
    last_found :
        let f = last_run runs interval timeout t in
        (t + (interval + timeout) < runs f)
        × ((j : ℕ) → 0 ≤ j → j < f → runs j ≤ t + (interval + timeout))
    last_found =
        let o = t + (interval + timeout) in
        found o 0 (o + 1) (ground (arith, not_before (0 + (o + 1))))

    is_past :
        (k : ℕ) → ltb (t + (interval + timeout)) (runs k) ≡ leb (last_run runs interval timeout t) k
    is_past k =
        let f = last_run runs interval timeout t in
        elim (Bool-cases (leb f k)) [
          | inl reached ↦ ground (arith, reached, last_found.0, rises f k (leb→le f k reached))
          | inr before ↦
              let not_past = last_found.1 k (omega arith) (ground (arith, before)) in
              ground (arith, before, not_past)
        ]

    in_time :
        (f : ℕ)
        → ((j : ℕ) → 0 ≤ j → j < f → runs j ≤ t + (interval + timeout))
        → runs f ≤ t + (interval + timeout) + (interval + late)
    in_time zero before = omega (arith, early)
    in_time (suc f) before = omega (arith, soon f, before f (omega arith) (omega arith))

    -- The runs of the timer come one after the other, at most `interval` and a delay `late` apart. A
    -- socket that has not answered since the time `t` is ended by each run from a certain one on at
    -- which it is still registered, and by none before; that run comes at most one interval and the
    -- delay after `interval + timeout` have passed.
    pub silent_ended :
        (h : ℕ → Heap) (m : ℕ → ConnectionManager) (w : Ws) (k : ℕ)
        → IsIndexed (h k) (m k)
        → (h k w).last_pong ≡ t
        → let last = last_run runs interval timeout t in
          (ends_of w (tick (h k) interval timeout (runs k) (m k))
            ≡ to_nat (registered (h k) w (m k) && leb last k))
          × (runs last ≤ t + (interval + timeout) + (interval + late))
    silent_ended h m w k v silent =
        let ended = (tick_outcome (h k) interval timeout (runs k) w (m k) v).1 in
        (
          ended
              ∙ ap
                  (λ (pong : ℕ).
                    to_nat (registered (h k) w (m k) && ltb (pong + (interval + timeout)) (runs k)))
                  silent
              ∙ ap (λ (b : Bool). to_nat (registered (h k) w (m k) && b)) (is_past k),
          in_time (last_run runs interval timeout t) last_found.1,
        )
