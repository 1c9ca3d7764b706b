-- ===== src/Chaos.antt =====
-- The fault injector of magnum-tcp/src/chaos.rs. An instant is a count of nanoseconds.
use magnus_tcp.Base.{
  ℕ, ◌+◌, ◌*◌, ◌/◌, ◌%◌, ◌^◌, Bool, ◌||◌, List, [], ◌∷◌, ◌++◌, ltb, leb, if◌then◌else◌,
}
use Prim.Native.Nat.{bit_xor}
use magnus_tcp.Float.{F64}
pub mod Laws

pub record ChaosConfig (F : Type 0) : Type 0 where
  pub drop_rate : F
  pub reorder_rate : F
  pub max_jitter_ms : ℕ  -- u64, and less than its greatest: the source adds 1 to it

pub record Delayed : Type 0 where
  pub packet : List ℕ
  pub release : ℕ

pub record ChaosMiddleware (F : Type 0) : Type 0 where
  pub config : ChaosConfig F
  pub pending : List Delayed
  pub rng : ℕ  -- u64

-- The loop of `flush_ready`: what it releases, and what stays.
unfoldable pub release_ready : ℕ → List Delayed → List (List ℕ) × List Delayed
release_ready now [] = ([], [])
release_ready now (p ∷ ps) =
    let (out, rest) = release_ready now ps in
    if leb p.release now then (p.packet ∷ out, rest) else ([], p ∷ ps)

-- `next_u64`: the state that it returns and keeps. A shift to the left drops the bits beyond 64.
unfoldable pub next_u64 : ℕ → ℕ
next_u64 rng =
    let a = bit_xor rng (rng * 2 ^ 13 % 2 ^ 64) in
    let b = bit_xor a (a / 2 ^ 7) in bit_xor b (b * 2 ^ 17 % 2 ^ 64)

module _ {F : Type 0} where
  unfoldable pub packet_loss : F64 F → F → ChaosConfig F
  packet_loss f rate = record {
    drop_rate = f.clamp rate (f.literal 0 1) (f.literal 1 1);
    reorder_rate = f.literal 0 1;
    max_jitter_ms = 0;
  }

  unfoldable pub no_chaos : F64 F → ChaosConfig F
  no_chaos f = record { drop_rate = f.literal 0 1; reorder_rate = f.literal 0 1; max_jitter_ms = 0 }

  unfoldable pub new : ChaosConfig F → ChaosMiddleware F
  new config = record { config = config; pending = []; rng = 0x1234_5678_9abc_def0 }

  -- The number that `next_f64` makes of the generator's state.
  unfoldable pub fraction : F64 F → ℕ → F
  fraction f rng = f.over (f.of_u64 (rng / 2 ^ 11)) (f.of_u64 (2 ^ 53))

  unfoldable pub flush_ready : ChaosMiddleware F → ℕ → ChaosMiddleware F × List (List ℕ)
  flush_ready c now =
      let (out, rest) = release_ready now c.pending in (record c { pending = rest }, out)

  -- The packet is kept back until `release`.
  unfoldable pub delay : ChaosMiddleware F → List ℕ → ℕ → ℕ → ChaosMiddleware F × List (List ℕ)
  delay c packet now release =
      flush_ready
        (record c { pending = c.pending ++ record { packet = packet; release = release } ∷ [] }) now

  -- The packet follows those whose time has come.
  unfoldable pub pass : ChaosMiddleware F → List ℕ → ℕ → ChaosMiddleware F × List (List ℕ)
  pass c packet now = let (c', out) = flush_ready c now in (c', out ++ packet ∷ [])

  unfoldable pub intercept :
      F64 F → ChaosMiddleware F → List ℕ → ℕ → ChaosMiddleware F × List (List ℕ)
  intercept f c packet now =
      let r1 = next_u64 c.rng in
      let jittered = ltb 0 c.config.max_jitter_ms in
      let r2 = if jittered then next_u64 r1 else r1 in
      let delay_ms = if jittered then r2 % (c.config.max_jitter_ms + 1) else 0 in
      let r3 = next_u64 r2 in
      let reorder = f.less (fraction f r3) c.config.reorder_rate in
      if f.less (fraction f r1) c.config.drop_rate
      then (record c { rng = r1 }, [])
      else (if ltb 0 delay_ms || reorder
          then delay (record c { rng = r3 }) packet now (now + delay_ms * 1_000_000)
          else pass (record c { rng = r3 }) packet now)
