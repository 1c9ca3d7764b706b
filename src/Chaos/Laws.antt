-- ===== src/Chaos/Laws.antt =====
-- What the fault injector of magnum-tcp/src/chaos.rs does to the packets that it is given.
use magnus_tcp.Base.{
  ℕ, ◌+◌, ◌<◌, ◌≤◌, ◌≡◌, refl, ap, ◌⊎◌, inl, inr, Bool, true, false, Bool-cases, List, [], ◌∷◌,
  ◌++◌, All, map, leb, if◌then◌else◌, arith,
}
use magnus_tcp.Float.{F64}
use magnus_tcp.Chaos.{Delayed, ChaosMiddleware, release_ready, flush_ready, delay, pass, intercept}

abbrev pub packets : List Delayed → List (List ℕ)
packets ps = map (λ p. p.packet) ps

-- The packet at the head, if there is one, is not yet due.
abbrev pub NotDue : ℕ → List Delayed → Type 0
NotDue now [] = Unit
NotDue now (p ∷ ps) = now < p.release

-- The packets of `waiting` whose time has come, from the first on, were let out as `out`, in order;
-- `left` is the rest, and its first is not yet due.
pub record LetsOut (now : ℕ) (waiting left : List Delayed) (out : List (List ℕ)) : Type 0 where
  pub ready : List Delayed
  pub all_due : All (λ p. p.release ≤ now) ready
  pub are_out : out ≡ packets ready
  pub in_order : waiting ≡ ready ++ left
  pub head : NotDue now left

release_ready-LetsOut :
    (now : ℕ) (ps : List Delayed)
    → let (out, rest) = release_ready now ps in LetsOut now ps rest out
unfolding release_ready
release_ready-LetsOut now [] = record {
  ready = [];
  all_due = tt;
  are_out = refl;
  in_order = refl;
  head = tt;
}
release_ready-LetsOut now (p ∷ ps) =
    let v = release_ready-LetsOut now ps in
    elim (Bool-cases (leb p.release now)) [
      | inl h ↦
          let due : p.release ≤ now = ground arith in
          rw h (record {
            ready = p ∷ v.ready;
            all_due = (due, v.all_due);
            are_out = ap (λ r. p.packet ∷ r) v.are_out;
            in_order = ap (λ r. p ∷ r) v.in_order;
            head = v.head;
          })
      | inr h ↦
          let late : now < p.release = ground arith in
          rw h (record { ready = []; all_due = tt; are_out = refl; in_order = refl; head = late })
    ]

module _ {F : Type 0} (c : ChaosMiddleware F) (packet : List ℕ) (now : ℕ) where
  -- What a call did: the packet was dropped and nothing else happened; or it was put behind those
  -- that wait, not to be let out before `now`, and those that are due were let out; or it was let out
  -- behind those that are due.
  unfoldable pub Conserves : ChaosMiddleware F × List (List ℕ) → Type 0
  Conserves (c', out) =
      ((out ≡ []) × (c'.pending ≡ c.pending))
      ⊎ (((release : ℕ) × (now ≤ release)
            × LetsOut now (c.pending ++ record { packet = packet; release = release } ∷ [])
                c'.pending out)
          ⊎ ((released : List (List ℕ)) × (out ≡ released ++ packet ∷ [])
              × LetsOut now c.pending c'.pending released))

  call-Conserves :
      (drop wait : Bool) (r1 r3 late : ℕ)
      → Conserves (
          if drop
          then (record c { rng = r1 }, [])
          else (if wait
              then delay (record c { rng = r3 }) packet now (now + late)
              else pass (record c { rng = r3 }) packet now))
  unfolding Conserves delay pass flush_ready
  call-Conserves true wait r1 r3 late = inl (refl, refl)
  call-Conserves false true r1 r3 late =
      let last : List Delayed = record { packet = packet; release = now + late } ∷ [] in
      inr (inl (now + late, omega arith, release_ready-LetsOut now (c.pending ++ last)))
  call-Conserves false false r1 r3 late =
      inr (inr ((release_ready now c.pending).0, refl, release_ready-LetsOut now c.pending))

-- One call of `intercept` drops the packet and changes nothing else that waits; or puts it behind those
-- that wait, not to leave before now, and lets out those at the front that are due; or lets it out
-- behind those at the front that are due. Those that leave are due and keep their order, the others keep
-- waiting as they were, and the first of these is not due.
pub intercept-Conserves :
    {F : Type 0} (f : F64 F) (c : ChaosMiddleware F) (packet : List ℕ) (now : ℕ)
    → Conserves c packet now (intercept f c packet now)
unfolding intercept
intercept-Conserves f c packet now = call-Conserves c packet now _ _ _ _ _
